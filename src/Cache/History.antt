-- ===== src/Cache/History.antt =====
-- backend/cache.py, class `_TTLCache`: the cache against a log of the calls made on it.
use ghpulse.Prelude.{
  ℕ, suc, ◌+◌, ◌≤◌, ◌<◌, String, ◌≡◌, refl, Bool, true, false, not, Option, none, some, List, [],
  ◌∷◌, arith, ◌==◌, str_eq, eq_iff, if◌then◌else◌, inl, inr, Option-cases, Bool-cases, ap, sym, ◌∙◌,
  ◌++◌,
}
use ghpulse.Prelude.Dict.{lookup, lookup-insert, lookup-remove, lookup-empty}
use mathlib.Core.Path.{ap₂, transport}
use ghpulse.Cache.{
  Item, TtlCache, read_item, empty, is_expired, get_entry, put, invalidate, put_if_generation,
  clear,
}

-- One call, with the time at which it was made.
pub data Call (V : Type 0) : Type 0 where
  reads : String → ℕ → Call V
  puts : String → V → ℕ → Call V
  publishes : String → V → ℕ → ℕ → Call V
  invalidates : ℕ → Call V
  clears : ℕ → Call V

-- What a log says of a key: its last value, when it was written, and the number of
-- invalidations since.
abbrev pub Written : Type 0 → Type 0
Written V = Option (V × ℕ × ℕ)

module _ {V : Type 0} where
  abbrev pub time_of : Call V → ℕ
  time_of (reads key t) = t
  time_of (puts key value t) = t
  time_of (publishes key value token t) = t
  time_of (invalidates t) = t
  time_of (clears t) = t

  -- A log has its latest call first.
  abbrev pub last_time : List (Call V) → ℕ
  last_time [] = 0
  last_time (call ∷ older) = time_of call

  -- The clock did not go backwards.
  abbrev pub IsOrdered : List (Call V) → Type 0
  IsOrdered [] = Unit
  IsOrdered (call ∷ older) = (last_time older ≤ time_of call) × IsOrdered older

  unfoldable pub perform : Call V → TtlCache V → TtlCache V
  perform (reads key t) c = (get_entry key t c).1
  perform (puts key value t) c = put key value t c
  perform (publishes key value token t) c = (put_if_generation key value token t c).1
  perform (invalidates t) c = invalidate c
  perform (clears t) c = clear c

  unfoldable pub replay : ℕ → List (Call V) → TtlCache V
  replay ttl [] = empty ttl
  replay ttl (call ∷ older) = perform call (replay ttl older)

  -- How many calls of the log made the entries stale.
  abbrev pub bumps : List (Call V) → ℕ
  bumps [] = 0
  bumps (invalidates t ∷ older) = suc (bumps older)
  bumps (clears t ∷ older) = suc (bumps older)
  bumps (reads key t ∷ older) = bumps older
  bumps (puts key value t ∷ older) = bumps older
  bumps (publishes key value token t ∷ older) = bumps older

  abbrev aged : Written V → Written V
  aged none = none
  aged (some (value, t, n)) = some (value, t, suc n)

  abbrev pub last_write : String → List (Call V) → Written V
  last_write key [] = none
  last_write key (reads j t ∷ older) = last_write key older
  last_write key (puts j value t ∷ older) =
      if str_eq j key then some (value, t, 0) else last_write key older
  last_write key (publishes j value token t ∷ older) =
      if token == bumps older
      then (if str_eq j key then some (value, t, 0) else last_write key older)
      else last_write key older
  last_write key (invalidates t ∷ older) = aged (last_write key older)
  last_write key (clears t ∷ older) = none

  -- A value is served while it is no older than the limit, and is stale after an invalidation.
  abbrev pub served : ℕ → ℕ → Written V → Option (V × Bool)
  served ttl now none = none
  served ttl now (some (value, t, n)) =
      if is_expired ttl t now then none else some (value, not (n == 0))

  -- The stored item is the last write, or there is none and that write has expired.
  abbrev Agrees : ℕ → ℕ → ℕ → Option (Item V) → Written V → Type 0
  Agrees ttl generation now none none = Unit
  Agrees ttl generation now none (some (value, t, n)) = t + ttl < now
  Agrees ttl generation now (some item) none = ⊥
  Agrees ttl generation now (some item) (some (value, t, n)) =
      (item.value ≡ value) × (item.stamp ≡ t) × (item.stamped_generation + n ≡ generation)

  pub ttl-replay : (ttl : ℕ) (h : List (Call V)) → (replay ttl h).ttl ≡ ttl
  unfolding replay perform get_entry put put_if_generation invalidate clear
  ttl-replay ttl [] = refl
  ttl-replay ttl (reads key t ∷ h) = ground (arith, ttl-replay ttl h)
  ttl-replay ttl (_ ∷ h) = ground (arith, ttl-replay ttl h)

  pub generation-replay : (ttl : ℕ) (h : List (Call V)) → (replay ttl h).generation ≡ bumps h
  unfolding replay perform get_entry put put_if_generation invalidate clear
  generation-replay ttl [] = refl
  generation-replay ttl (reads key t ∷ h) = ground (arith, generation-replay ttl h)
  generation-replay ttl (_ ∷ h) = ground (arith, generation-replay ttl h)

  module _ (ttl generation : ℕ) where
    Agrees-later :
        (now later : ℕ) (found : Option (Item V)) (w : Written V)
        → now ≤ later
        → Agrees ttl generation now found w
        → Agrees ttl generation later found w
    Agrees-later now later found w h a = ground arith

    Agrees-aged :
        (now later : ℕ) (found : Option (Item V)) (w : Written V)
        → now ≤ later
        → Agrees ttl generation now found w
        → Agrees ttl (suc generation) later found (aged w)
    Agrees-aged now later found w h a = ground arith

  -- What a read at a time leaves of an item.
  abbrev fresh_at : ℕ → ℕ → Option (Item V) → Option (Item V)
  fresh_at ttl t none = none
  fresh_at ttl t (some item) = if is_expired ttl item.stamp t then none else some item

  lookup-get_entry :
      (key j : String) (t : ℕ) (c : TtlCache V)
      → lookup key (get_entry j t c).1.items
        ≡ (if str_eq j key then fresh_at c.ttl t (lookup key c.items) else lookup key c.items)
  unfolding get_entry
  lookup-get_entry key j t c = elim (Option-cases (lookup j c.items)) [
    | inl e ↦ rw e (ground (arith, eq_iff j key))
    | inr (item, e) ↦ rw e (ground (arith, eq_iff j key, lookup-remove j key c.items))
  ]

  Agrees-fresh_at :
      (ttl generation now later : ℕ) (found : Option (Item V)) (w : Written V)
      → now ≤ later
      → Agrees ttl generation now found w
      → Agrees ttl generation later (fresh_at ttl later found) w
  Agrees-fresh_at ttl generation now later found w h a = ground arith

  Agrees-read :
      (key j : String) (now t : ℕ) (c : TtlCache V) (w : Written V)
      → now ≤ t
      → Agrees c.ttl c.generation now (lookup key c.items) w
      → Agrees c.ttl c.generation t (lookup key (get_entry j t c).1.items) w
  Agrees-read key j now t c w h a = rw lookup-get_entry (elim (Bool-cases (str_eq j key)) [
    | inl e ↦ rw e (Agrees-fresh_at c.ttl c.generation now t (lookup key c.items) w h a)
    | inr e ↦ rw e (Agrees-later c.ttl c.generation now t (lookup key c.items) w h a)
  ])

  Agrees-put :
      (key j : String) (value : V) (before t : ℕ) (c : TtlCache V) (w : Written V)
      → before ≤ t
      → Agrees c.ttl c.generation before (lookup key c.items) w
      → Agrees c.ttl c.generation t
          (lookup key (put j value t c).items)
          (if str_eq j key then some (value, t, 0) else w)
  unfolding put
  Agrees-put key j value before t c w h a = rw lookup-insert (elim (Bool-cases (str_eq j key)) [
    | inl e ↦ rw e (refl, refl, omega arith)
    | inr e ↦ rw e (Agrees-later c.ttl c.generation before t (lookup key c.items) w h a)
  ])

  Agrees-publish :
      (key j : String) (value : V) (token before t : ℕ) (c : TtlCache V) (w : Written V)
      → before ≤ t
      → Agrees c.ttl c.generation before (lookup key c.items) w
      → Agrees c.ttl c.generation t
          (lookup key (put_if_generation j value token t c).1.items)
          (if token == c.generation then (if str_eq j key then some (value, t, 0) else w) else w)
  unfolding put_if_generation
  Agrees-publish key j value token before t c w h a = elim (Bool-cases (token == c.generation)) [
    | inl e ↦ rw e (Agrees-put key j value before t c w h a)
    | inr e ↦ rw e (Agrees-later c.ttl c.generation before t (lookup key c.items) w h a)
  ]

  -- The two names under which the limit and the generation of a replayed cache go.
  Agrees-replay :
      (ttl now : ℕ) (h : List (Call V)) (found : Option (Item V)) (w : Written V)
      → Agrees (replay ttl h).ttl (replay ttl h).generation now found w
        ≡ Agrees ttl (bumps h) now found w
  Agrees-replay ttl now h found w =
      ap₂ (λ (limit b : ℕ). Agrees limit b now found w) (ttl-replay ttl h) (generation-replay ttl h)

  Agrees-invalidate :
      (ttl generation before t : ℕ) (key : String) (c : TtlCache V) (w : Written V)
      → before ≤ t
      → Agrees ttl generation before (lookup key c.items) w
      → Agrees ttl (suc generation) t (lookup key (invalidate c).items) (aged w)
  unfolding invalidate
  Agrees-invalidate ttl generation before t key c w h a =
      Agrees-aged ttl generation before t (lookup key c.items) w h a

  replay-Agrees :
      (ttl : ℕ) (key : String) (h : List (Call V))
      → IsOrdered h
      → Agrees ttl (bumps h) (last_time h) (lookup key (replay ttl h).items) (last_write key h)
  unfolding replay perform
  replay-Agrees ttl key [] o = rw lookup-empty tt
  replay-Agrees ttl key (reads j t ∷ h) o = transport (Agrees-replay ttl t h _ _) (
      Agrees-read key j (last_time h) t (replay ttl h) (last_write key h) o.0
        (transport (sym (Agrees-replay ttl (last_time h) h _ _)) (replay-Agrees ttl key h o.1)))
  replay-Agrees ttl key (puts j value t ∷ h) o = transport (Agrees-replay ttl t h _ _) (
      Agrees-put key j value (last_time h) t (replay ttl h) (last_write key h) o.0
        (transport (sym (Agrees-replay ttl (last_time h) h _ _)) (replay-Agrees ttl key h o.1)))
  replay-Agrees ttl key (publishes j value token t ∷ h) o = transport (Agrees-replay ttl t h _ _) (
      rw (← generation-replay ttl h) (
        Agrees-publish key j value token (last_time h) t (replay ttl h) (last_write key h) o.0
          (transport (sym (Agrees-replay ttl (last_time h) h _ _)) (replay-Agrees ttl key h o.1))))
  replay-Agrees ttl key (invalidates t ∷ h) o =
      Agrees-invalidate ttl (bumps h) (last_time h) t key (replay ttl h) (last_write key h) o.0
        (replay-Agrees ttl key h o.1)
  replay-Agrees ttl key (clears t ∷ h) o = unfold clear in rw lookup-empty tt

  read_item-eq-served :
      (key : String) (before now : ℕ) (c : TtlCache V) (found : Option (Item V)) (w : Written V)
      → before ≤ now
      → Agrees c.ttl c.generation before found w
      → (read_item key now c found).0 ≡ served c.ttl now w
  read_item-eq-served key before now c found w h a = ground arith

  -- Whatever calls were made in order of time, a read at a later time serves the last value
  -- written under the key, if it is no older than the limit, and calls it stale exactly if the
  -- cache was invalidated since; a clear forgets it.
  pub get_entry-eq-served :
      (ttl : ℕ) (key : String) (now : ℕ) (h : List (Call V))
      → IsOrdered h
      → last_time h ≤ now
      → (get_entry key now (replay ttl h)).0 ≡ served ttl now (last_write key h)
  unfolding get_entry
  get_entry-eq-served ttl key now h o later =
      read_item-eq-served key (last_time h) now (replay ttl h) (lookup key (replay ttl h).items)
        (last_write key h) later (rw (ttl-replay, generation-replay) (replay-Agrees ttl key h o))
      ∙ ap (λ (limit : ℕ). served limit now (last_write key h)) (ttl-replay ttl h)

  pub bumps-append :
      (since before : List (Call V)) → bumps (since ++ before) ≡ bumps since + bumps before
  bumps-append [] before = omega arith
  bumps-append (reads key t ∷ since) before = bumps-append since before
  bumps-append (puts key value t ∷ since) before = bumps-append since before
  bumps-append (publishes key value token t ∷ since) before = bumps-append since before
  bumps-append (invalidates t ∷ since) before = omega (arith, bumps-append since before)
  bumps-append (clears t ∷ since) before = omega (arith, bumps-append since before)

  -- A refresh that holds the generation of an earlier moment is published exactly if no
  -- invalidation and no clear was made since; otherwise it changes nothing.
  pub put_if_generation-since :
      (key : String) (value : V) (now ttl : ℕ) (since before : List (Call V))
      → put_if_generation key value
          (replay ttl before).generation
          now
          (replay ttl (since ++ before))
        ≡ (if bumps since == 0
            then (true, put key value now (replay ttl (since ++ before)))
            else (false, replay ttl (since ++ before)))
  unfolding put_if_generation
  put_if_generation-since key value now ttl since before =
      rw
        (
          generation-replay ttl before,
          generation-replay ttl (since ++ before),
          bumps-append since before,
        )
        (ground arith)
