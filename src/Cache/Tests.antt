-- ===== src/Cache/Tests.antt =====
-- backend/cache.py: the history theorems at a concrete run.
use ghpulse.Prelude.{◌≡◌, true, some, [], ◌∷◌, List, false, arith, ℕ}
use ghpulse.Cache.{get_entry, put_if_generation}
use ghpulse.Cache.History.{
  Call, puts, invalidates, publishes, replay, get_entry-eq-served, put_if_generation-since,
}

-- A write at 5, an invalidation at 7, and a late refresh that still holds generation 0.
abbrev hour : List (Call ℕ)
hour = publishes "k" 2 0 9 ∷ invalidates 7 ∷ puts "k" 1 5 ∷ []

get_entry-eq-served_example : (get_entry "k" 10 (replay 3600 hour)).0 ≡ some (1, true)
get_entry-eq-served_example = get_entry-eq-served 3600 "k" 10 hour (omega arith) (omega arith)

abbrev written : List (Call ℕ)
written = puts "k" 1 5 ∷ []

put_if_generation-since_example :
    put_if_generation "k" 2
      (replay 3600 written).generation
      9
      (replay 3600 (invalidates 7 ∷ written))
    ≡ (false, replay 3600 (invalidates 7 ∷ written))
put_if_generation-since_example = put_if_generation-since "k" 2 9 3600 (invalidates 7 ∷ []) written
