-- ===== src/Cache/Refresh/Progress.antt =====
-- backend/cache.py: the turns that requests and refreshes have left.
use ghpulse.Prelude.{
  ℕ, suc, ◌+◌, ◌<◌, Bool, true, false, ◌≡◌, ap, none, some, List, [], ◌∷◌, ◌++◌, arith,
  Option-cases, inl, inr,
}
use ghpulse.Cache.{get_entry}
use ghpulse.Cache.Refresh.{
  Job, refresh_job, warm_job, Shared, Stage, idle, bypassing, looking, scheduling, reserved,
  submitting, abandoning, waiting, locked, computing, leaving, returned, running, finishing,
  submit_refresh, reserve, release_refresh, look, look_again, submit, Move, request, request_fresh,
  bypass, bypass_fails, warm, take_job, look_first, schedule, read_generation, hand_over, abandon,
  acquire, look_second, compute, compute_fails, leave, finish_request, publish, refresh_fails,
  finish_refresh, System,
}
use ghpulse.Cache.Refresh.Ownership.{total, total-append, at_thread}

-- How many turns a stage has left at most, those of the job it may submit included.
abbrev pub rank : {V : Type 0} → Stage V → ℕ
rank idle = 0
rank (returned v) = 1
rank bypassing = 2
rank (finishing k) = 1
rank (running k g) = 2
rank (abandoning k v) = 2
rank (leaving k r) = 2
rank (computing k) = 3
rank (locked k) = 4
rank (waiting k) = 5
rank (submitting k g v) = 5
rank (reserved k v) = 6
rank (scheduling k v) = 7
rank (looking k) = 8

abbrev pub job_rank : Job → ℕ
job_rank (refresh_job k g) = 3
job_rank (warm_job k) = 9

abbrev pub work_left : {V : Type 0} → System V → ℕ
work_left s = total rank s.threads + total job_rank s.shared.jobs

module _ {V : Type 0} where
  -- A turn that brings in no new request and no new warming.
  abbrev pub is_inner : {s after : Shared V} {p q : Stage V} → Move s p after q → Bool
  is_inner (request k) = false
  is_inner request_fresh = false
  is_inner (warm r k) = false
  is_inner (take_job job rest e) = true
  is_inner _ = true

  Move-rank :
      {s after : Shared V} {p q : Stage V} (mv : Move s p after q)
      → is_inner mv ≡ true
      → rank q + total job_rank after.jobs < rank p + total job_rank s.jobs
  unfolding look look_again reserve submit submit_refresh release_refresh
  Move-rank (request k) h = cc h
  Move-rank request_fresh h = cc h
  Move-rank (warm r k) h = cc h
  Move-rank {s} (bypass v) h = omega arith
  Move-rank {s} bypass_fails h = omega arith
  Move-rank {s} (take_job (refresh_job k g) rest e) h = omega (arith, ap (total job_rank) e)
  Move-rank {s} (take_job (warm_job k) rest e) h = omega (arith, ap (total job_rank) e)
  Move-rank {s} (look_first k now) h = elim (Option-cases (get_entry k now s.cache).0) [
    | inl e ↦ rw e (omega arith)
    | inr ((v, b), e) ↦ rw e (ground arith)
  ]
  Move-rank {s} (schedule k v) h = ground arith
  Move-rank {s} (read_generation k v) h = omega arith
  Move-rank {s} (hand_over r k g v) h =
      ground (arith, total-append job_rank s.jobs (refresh_job k g ∷ []))
  Move-rank {s} (abandon k v) h = omega arith
  Move-rank {s} (acquire k free) h = omega arith
  Move-rank {s} (look_second k now) h = elim (Option-cases (get_entry k now s.cache).0) [
    | inl e ↦ rw e (omega arith)
    | inr ((v, b), e) ↦ rw e (omega arith)
  ]
  Move-rank {s} (compute k v now) h = omega arith
  Move-rank {s} (compute_fails k) h = omega arith
  Move-rank {s} (leave k none) h = omega arith
  Move-rank {s} (leave k (some v)) h = omega arith
  Move-rank {s} (finish_request v) h = omega arith
  Move-rank {s} (publish k g v now) h = omega arith
  Move-rank {s} (refresh_fails k g) h = omega arith
  Move-rank {s} (finish_refresh k) h = omega arith

  -- A run of inner turns, with its length.
  pub data Run (s : System V) : ℕ → System V → Type 0 where
    rest : Run s 0 s
    more :
        {k : ℕ} {t : System V} {p q : Stage V} {after : Shared V} (left right : List (Stage V))
        → t.threads ≡ left ++ p ∷ right
        → (mv : Move t.shared p after q) → is_inner mv ≡ true
        → Run s k t
        → Run s (suc k) (record { shared = after; threads = left ++ q ∷ right })

  pub turn-work_left :
      (t : System V) {p q : Stage V} {after : Shared V} (left right : List (Stage V))
      → t.threads ≡ left ++ p ∷ right
      → (mv : Move t.shared p after q) → is_inner mv ≡ true
      → work_left (record { shared = after; threads = left ++ q ∷ right }) < work_left t
  turn-work_left t {p} {q} left right e mv inner = omega (
    arith,
    Move-rank mv inner,
    ap (total rank) e,
    at_thread rank left right p,
    at_thread rank left right q,
  )
