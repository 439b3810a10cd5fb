-- ===== src/Ingest/Replace/Cascade.antt =====
-- backend/schema.sql, `ON DELETE CASCADE`: a deletion of unseen repositories takes no item along
-- whose repository was seen.
use ghpulse.Prelude.{
  String, ◌≡◌, refl, ap, Bool, true, false, Option, none, some, List, [], ◌∷◌, arith, str_eq,
  eq_iff, contains, All, Bool-cases, inl, inr, if◌then◌else◌,
}
use ghpulse.Prelude.Dict.{Dict, lookup}
use ghpulse.Store.Table.{Upsert, unseen, cascade}
use ghpulse.Store.Table.Laws.{as_table, names, stored, after_upsert, lookup-as_table_absent}

module _ {R : Type 0} where
  pub contains-unseen :
      (x : String) (seen : List String) (t : Dict R)
      → contains x seen ≡ true
      → contains x (unseen seen t) ≡ false
  unfolding unseen
  contains-unseen x seen [] h = refl
  contains-unseen x seen ((k, r) ∷ t) h = ground (arith, eq_iff k x, contains-unseen x seen t h)

  -- A visible row that the cascade spares stays visible.
  pub lookup-cascade :
      (column : R → String) (gone : List String) (k : String) (t : Dict R)
      → ((r : R) → lookup k t ≡ some r → contains (column r) gone ≡ false)
      → lookup k (cascade column gone t) ≡ lookup k t
  unfolding cascade lookup
  lookup-cascade column gone k [] h = refl
  lookup-cascade column gone k ((j, r) ∷ t) h = elim (Bool-cases (str_eq j k)) [
    | inl e ↦ rw (e, h r (rw e)) (rw e)
    | inr e ↦ spared_tail e (lookup-cascade column gone k t (λ x p. h x (rw e p)))
  ]
    where
      spared_tail :
          str_eq j k ≡ false
          → lookup k (cascade column gone t) ≡ lookup k t
          → lookup k (cascade column gone ((j, r) ∷ t)) ≡ lookup k ((j, r) ∷ t)
      spared_tail e ih = ground arith

-- Every row of a table made of records has what each record has.
pub lookup-as_table_All :
    {A R : Type 0} (f : A → String) (row : A → R) (Q : R → Type 0) (k : String) (xs : List A)
    (r : R)
    → All (λ x. Q (row x)) xs
    → lookup k (as_table f row xs) ≡ some r
    → Q r
unfolding lookup
lookup-as_table_All f row Q k [] r a e = cc
lookup-as_table_All f row Q k (x ∷ xs) r a e = elim (Bool-cases (str_eq (f x) k)) [
  | inl h ↦ rw (← head_row (str_eq (f x) k) h e) a.0
  | inr h ↦ lookup-as_table_All f row Q k xs r a.1 (tail_row (str_eq (f x) k) h e)
]
  where
    head_row :
        (b : Bool)
        → b ≡ true
        → (if b then some (row x) else lookup k (as_table f row xs)) ≡ some r
        → row x ≡ r
    head_row b h e = ground arith

    tail_row :
        (b : Bool)
        → b ≡ false
        → (if b then some (row x) else lookup k (as_table f row xs)) ≡ some r
        → lookup k (as_table f row xs) ≡ some r
    tail_row b h e = ground arith

pub lookup-as_table_present :
    {A R : Type 0} (f : A → String) (row : A → R) (k : String) (xs : List A)
    → contains k (names f xs) ≡ true
    → (x : A) × (lookup k (as_table f row xs) ≡ some (row x))
unfolding lookup
lookup-as_table_present f row k [] h = cc
lookup-as_table_present f row k (x ∷ xs) h = elim (Bool-cases (str_eq (f x) k)) [
  | inl e ↦ (x, rw e)
  | inr e ↦ let rest = lookup-as_table_present f row k xs (ground arith) in (rest.0, rw e rest.1)
]

-- Upserts that overwrite, followed by the deletion of what is unseen, leave the records.
pub lookup-overwritten :
    {A R : Type 0} (u : Upsert A R) (k : String) (xs : List A) (found : Option R)
    → ((new : R) (old : Option R) → stored u new old ≡ new)
    → (if contains k (names u.node_id xs)
        then after_upsert u (lookup k (as_table u.node_id u.new_row xs)) found
        else none)
      ≡ lookup k (as_table u.node_id u.new_row xs)
lookup-overwritten u k xs found over = elim (Bool-cases (contains k (names u.node_id xs))) [
  | inl e ↦
      let (x, p) = lookup-as_table_present u.node_id u.new_row k xs e in
      rw (e, p) (ap some (over (u.new_row x) found))
  | inr e ↦ rw (e, lookup-as_table_absent u.node_id u.new_row k xs e)
]
