-- ===== src/Snapshot/Sound/Distinct.antt =====
-- backend/ingest.py, `seen_ids`: a name that is tested against those before it stands once.
use ghpulse.Prelude.{
  String, ◌≡◌, refl, true, false, ◌⊎◌, inl, inr, some, List, [], ◌∷◌, ◌++◌, arith, str_eq, eq_iff,
  contains, IsDistinct, All, Bool-cases, if◌then◌else◌,
}
use ghpulse.Prelude.Dict.{lookup, insert, lookup-insert, lookup-empty}
use ghpulse.Snapshot.{Repository}
use ghpulse.Snapshot.Validate.{ById, index_by_id, seen_after}
use ghpulse.Store.Table.Laws.{names}

-- Each name is absent from those seen before it.
abbrev pub IsFresh : List String → List String → Type 0
IsFresh seen [] = Unit
IsFresh seen (k ∷ ks) = (contains k seen ≡ false) × IsFresh (k ∷ seen) ks

abbrev pub push : List String → List String → List String
push [] seen = seen
push (k ∷ ks) seen = push ks (k ∷ seen)

pub seen_after-push :
    {A : Type 0} (f : A → String) (xs : List A) (seen : List String)
    → seen_after f xs seen ≡ push (names f xs) seen
seen_after-push f [] seen = refl
seen_after-push f (x ∷ xs) seen = seen_after-push f xs (f x ∷ seen)

pub IsFresh-append :
    (seen xs ys : List String)
    → IsFresh seen xs
    → IsFresh (push xs seen) ys
    → IsFresh seen (xs ++ ys)
IsFresh-append seen [] ys p q = q
IsFresh-append seen (x ∷ xs) ys p q = (p.0, IsFresh-append (x ∷ seen) xs ys p.1 q)

abbrev Avoids : List String → List String → Type 0
Avoids seen ks = All (λ k. contains k seen ≡ false) ks

Avoids-head : (z : String) (seen ks : List String) → Avoids (z ∷ seen) ks → contains z ks ≡ false
Avoids-head z seen [] h = refl
Avoids-head z seen (k ∷ ks) h = ground (arith, eq_iff z k, eq_iff k z, Avoids-head z seen ks h.1)

Avoids-tail : (z : String) (seen ks : List String) → Avoids (z ∷ seen) ks → Avoids seen ks
Avoids-tail z seen [] h = tt
Avoids-tail z seen (k ∷ ks) h = (ground arith, Avoids-tail z seen ks h.1)

fresh_split : (seen ks : List String) → IsFresh seen ks → IsDistinct ks × Avoids seen ks
fresh_split seen [] h = (tt, tt)
fresh_split seen (k ∷ ks) h =
    let rest = fresh_split (k ∷ seen) ks h.1 in
    ((Avoids-head k seen ks rest.1, rest.0), (h.0, Avoids-tail k seen ks rest.1))

pub IsFresh-IsDistinct : (ks : List String) → IsFresh [] ks → IsDistinct ks
IsFresh-IsDistinct ks h = (fresh_split [] ks h).0

indexed_head :
    (k : String) (x : Repository) (d : ById) (rest : List String) {r : Repository}
    → (if str_eq x.node_id k then some x else lookup k d) ≡ some r
    → (contains k (x.node_id ∷ rest) ≡ true) ⊎ (lookup k d ≡ some r)
indexed_head k x d rest e = elim (Bool-cases (str_eq x.node_id k)) [
  | inl h ↦ inl (ground arith)
  | inr h ↦ inr (ground arith)
]

indexed :
    (k : String) (rs : List Repository) (d : ById) {r : Repository}
    → lookup k (index_by_id rs d) ≡ some r
    → (contains k (names (λ x. x.node_id) rs) ≡ true) ⊎ (lookup k d ≡ some r)
unfolding index_by_id
indexed k [] d e = inr e
indexed k (x ∷ rs) d e = elim (indexed k rs (insert x.node_id x d) e) [
  | inl h ↦ inl (ground arith)
  | inr h ↦ indexed_head k x d (names (λ x. x.node_id) rs) (rw lookup-insert at h)
]

-- A repository that `repositories_by_id` holds is one of the list.
pub index_by_id-contains :
    (k : String) (rs : List Repository) {r : Repository}
    → lookup k (index_by_id rs []) ≡ some r
    → contains k (names (λ x. x.node_id) rs) ≡ true
index_by_id-contains k rs e = elim (indexed k rs [] e) [
  | inl h ↦ h
  | inr h ↦ cc (lookup-empty {V = Repository} k)
]
