-- ===== src/Cache/Refresh/Tests.antt =====
-- backend/cache.py: two threads, one of which has missed a key and holds its lock.
use ghpulse.Prelude.{ℕ, refl, [], ◌∷◌}
use ghpulse.Prelude.Dict.{lookup}
use ghpulse.Cache.{get_entry}
use ghpulse.Cache.Refresh.{
  idle, waiting, locked, look, request, look_first, acquire, System, turn, Reach, here, next,
}
use ghpulse.Cache.Refresh.Ownership.{IsOwned, initial, Reach-IsOwned}
use ghpulse.Cache.Refresh.Progress.{Run}
use ghpulse.Cache.Refresh.Quiet.{IsQuiet, IsReleased, Reach-comes_to_rest}

abbrev missed : System ℕ
missed = record { shared = (initial {V = ℕ} 60 2).shared; threads = waiting "k" ∷ idle ∷ [] }

abbrev holding : System ℕ
holding = record {
  shared = record (initial {V = ℕ} 60 2).shared { locks = "k" ∷ [] };
  threads = locked "k" ∷ idle ∷ [];
}

missed_reached : Reach (initial 60 2) missed
unfolding look get_entry lookup
missed_reached =
    next (next here (turn [] (idle ∷ []) refl (request "k")))
      (turn [] (idle ∷ []) refl (look_first "k" 0))

holding_reached : Reach (initial 60 2) holding
holding_reached = next missed_reached (turn [] (idle ∷ []) refl (acquire "k" refl))

Reach-IsOwned_example : IsOwned holding
Reach-IsOwned_example = Reach-IsOwned 60 2 holding_reached

Reach-comes_to_rest_example : (m : ℕ) × (u : System ℕ) × Run holding m u × IsQuiet u × IsReleased u
Reach-comes_to_rest_example = Reach-comes_to_rest 60 1 holding_reached
