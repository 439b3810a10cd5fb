-- ===== src/Cache/Refresh/Quiet.antt =====
-- backend/cache.py: no thread waits for ever, and every request and refresh comes to its end.
use ghpulse.Prelude.{
  ℕ, zero, suc, ◌<◌, String, Bool, true, false, ◌≡◌, refl, ap, ◌∙◌, ◌⊎◌, List, [], ◌∷◌, ◌++◌,
  contains, length, length-append, ltb, arith, Bool-cases, inl, inr, All,
}
use ghpulse.Cache.Refresh.{
  Job, Shared, Stage, idle, bypassing, looking, scheduling, reserved, submitting, abandoning,
  waiting, locked, computing, leaving, returned, running, finishing, Move, bypass_fails, take_job,
  look_first, schedule, read_generation, hand_over, abandon, acquire, look_second, compute_fails,
  leave, finish_request, refresh_fails, finish_refresh, System, Step, turn, Reach, here, next,
  ingested, started, stopped,
}
use ghpulse.Cache.Refresh.Ownership.{
  one_if, refreshes, job_refreshes, holds, total, holders, IsOwned, Step-IsOwned, initial,
  Reach-IsOwned,
}
use ghpulse.Cache.Refresh.Progress.{work_left, is_inner, Run, rest, more, turn-work_left}

none_left : (b : Bool) (n : ℕ) → n ≡ one_if b → n ≡ 0 → b ≡ false
none_left true n e z = absurd (omega arith)
none_left false n e z = refl

module _ {V : Type 0} where
  -- A thread at this stage can take an inner turn.
  Movable : Shared V → Stage V → Type 0
  Movable s p = (q : Stage V) × (after : Shared V) × (mv : Move s p after q) × (is_inner mv ≡ true)

  holds-Movable : (s : Shared V) (key : String) (p : Stage V) → 0 < holds key p → Movable s p
  unfolding Movable
  holds-Movable s key (locked k) h = (_, _, look_second k 0, refl)
  holds-Movable s key (computing k) h = (_, _, compute_fails k, refl)
  holds-Movable s key (leaving k r) h = (_, _, leave k r, refl)
  holds-Movable s key idle h = absurd (omega arith)
  holds-Movable s key bypassing h = absurd (omega arith)
  holds-Movable s key (looking k) h = absurd (omega arith)
  holds-Movable s key (scheduling k v) h = absurd (omega arith)
  holds-Movable s key (reserved k v) h = absurd (omega arith)
  holds-Movable s key (submitting k g v) h = absurd (omega arith)
  holds-Movable s key (abandoning k v) h = absurd (omega arith)
  holds-Movable s key (waiting k) h = absurd (omega arith)
  holds-Movable s key (returned v) h = absurd (omega arith)
  holds-Movable s key (running k g) h = absurd (omega arith)
  holds-Movable s key (finishing k) h = absurd (omega arith)

  -- A stage has no turn of its own only if it is idle, or waits for a lock that is held.
  Stage-cases :
      (s : Shared V) (p : Stage V)
      → Movable s p ⊎ ((p ≡ idle) ⊎ ((key : String) × (contains key s.locks ≡ true)))
  unfolding Movable
  Stage-cases s idle = inr (inl refl)
  Stage-cases s bypassing = inl (_, _, bypass_fails, refl)
  Stage-cases s (looking k) = inl (_, _, look_first k 0, refl)
  Stage-cases s (scheduling k v) = inl (_, _, schedule k v, refl)
  Stage-cases s (reserved k v) = inl (_, _, read_generation k v, refl)
  Stage-cases s (submitting k g v) = inl (_, _, hand_over false k g v, refl)
  Stage-cases s (abandoning k v) = inl (_, _, abandon k v, refl)
  Stage-cases s (waiting k) = elim (Bool-cases (contains k s.locks)) [
    | inl held ↦ inr (inr (k, held))
    | inr free ↦ inl (_, _, acquire k free, refl)
  ]
  Stage-cases s (locked k) = inl (_, _, look_second k 0, refl)
  Stage-cases s (computing k) = inl (_, _, compute_fails k, refl)
  Stage-cases s (leaving k r) = inl (_, _, leave k r, refl)
  Stage-cases s (returned v) = inl (_, _, finish_request v, refl)
  Stage-cases s (running k g) = inl (_, _, refresh_fails k g, refl)
  Stage-cases s (finishing k) = inl (_, _, finish_refresh k, refl)

  -- An inner turn that some thread can take.
  record Enabled (s : System V) : Type 0 where
    left : List (Stage V)
    right : List (Stage V)
    before : Stage V
    stage : Stage V
    after : Shared V
    place : s.threads ≡ left ++ before ∷ right
    move : Move s.shared before after stage
    inner : is_inner move ≡ true

  Enabled-at :
      (s : System V) (left right : List (Stage V)) (p : Stage V)
      → s.threads ≡ left ++ p ∷ right
      → Movable s.shared p
      → Enabled s
  unfolding Movable
  Enabled-at s left right p e (q, after, mv, inner) = record {
    left = left;
    right = right;
    before = p;
    stage = q;
    after = after;
    place = e;
    move = mv;
    inner = inner;
  }

  -- A thread of some weight, found in the list.
  heavy_thread :
      (w : Stage V → ℕ) (ts : List (Stage V))
      → 0 < total w ts
      → (left : List (Stage V)) × (p : Stage V) × (right : List (Stage V)) × (ts
          ≡ left ++ p ∷ right)
        × (0 < w p)
  heavy_thread w [] h = absurd (omega arith)
  heavy_thread w (p ∷ ts) h = elim (Bool-cases (ltb 0 (w p))) [
    | inl heavy ↦ ([], p, ts, refl, ground arith)
    | inr light ↦
        let (left, q, right, e, heavy) = heavy_thread w ts (ground arith) in
        (p ∷ left, q, right, ap (λ l. p ∷ l) e, heavy)
  ]

  holder-Enabled :
      (s : System V) (key : String) → IsOwned s → contains key s.shared.locks ≡ true → Enabled s
  holder-Enabled s key v held =
      let one : holders key s ≡ 1 = v.lock_owned key ∙ rw held refl in
      let (left, p, right, e, heavy) = heavy_thread (holds key) s.threads (omega arith) in
      Enabled-at s left right p e (holds-Movable s.shared key p heavy)

  -- Either every thread of a list is idle, or one can move, or one waits for a lock that is held.
  scan :
      (s : Shared V) (ts : List (Stage V))
      → All (λ p. p ≡ idle) ts
        ⊎ (((left : List (Stage V)) × (p : Stage V) × (right : List (Stage V)) × (ts
                ≡ left ++ p ∷ right)
              × Movable s p)
            ⊎ ((key : String) × (contains key s.locks ≡ true)))
  scan s [] = inl tt
  scan s (p ∷ ts) = elim (Stage-cases s p) [
    | inl movable ↦ inr (inl ([], p, ts, refl, movable))
    | inr (inr held) ↦ inr (inr held)
    | inr (inl e) ↦ elim (scan s ts) [
      | inl quiet ↦ inl (e, quiet)
      | inr (inl (left, q, right, e', movable)) ↦
          inr (inl (p ∷ left, q, right, ap (λ l. p ∷ l) e', movable))
      | inr (inr held) ↦ inr (inr held)
    ]
  ]

  abbrev pub IsQuiet : System V → Type 0
  IsQuiet s = All (λ p. p ≡ idle) s.threads × (s.shared.jobs ≡ [])

  idle_takes_job :
      (s : System V) (ts : List (Stage V)) (job : Job) (jobs : List Job)
      → s.threads ≡ idle ∷ ts
      → s.shared.jobs ≡ job ∷ jobs
      → Enabled s
  idle_takes_job s ts job jobs e queued =
      Enabled-at s [] ts idle e (unfold Movable in (_, _, take_job job jobs queued, refl))

  IsQuiet-or-Enabled :
      (s : System V) (ts : List (Stage V)) (jobs : List Job)
      → s.threads ≡ ts
      → s.shared.jobs ≡ jobs
      → IsOwned s
      → 0 < length s.threads
      → IsQuiet s ⊎ Enabled s
  IsQuiet-or-Enabled s ts jobs e queued v some_thread = elim (scan s.shared s.threads) [
    | inr (inl (left, p, right, place, movable)) ↦ inr (Enabled-at s left right p place movable)
    | inr (inr (key, held)) ↦ inr (holder-Enabled s key v held)
    | inl quiet ↦ at_rest ts jobs e queued quiet
  ]
    where
      at_rest :
          (ts : List (Stage V)) (jobs : List Job)
          → s.threads ≡ ts
          → s.shared.jobs ≡ jobs
          → All (λ p. p ≡ idle) s.threads
          → IsQuiet s ⊎ Enabled s
      at_rest ts [] e queued quiet = inl (quiet, queued)
      at_rest [] (job ∷ jobs) e queued quiet = absurd (omega (arith, ap (length {0}) e))
      at_rest (p ∷ ts) (job ∷ jobs) e queued quiet =
          let first : (p ≡ idle) × All (λ p. p ≡ idle) ts = rw e at quiet in
          inr (idle_takes_job s ts job jobs (e ∙ ap (λ q. q ∷ ts) first.0) queued)

  Step-threads : {s t : System V} → Step s t → 0 < length s.threads → 0 < length t.threads
  Step-threads (turn {q} left right e mv) h = omega (arith, length-append {0} left (q ∷ right))
  Step-threads ingested h = h
  Step-threads started h = h
  Step-threads stopped h = h

  Reach-threads : (ttl n : ℕ) {t : System V} → Reach (initial ttl (suc n)) t → 0 < length t.threads
  Reach-threads ttl n here = omega arith
  Reach-threads ttl n (next r st) = Step-threads st (Reach-threads ttl n r)

  Run-to_rest :
      (fuel : ℕ) {s t : System V} {k : ℕ}
      → work_left t < fuel
      → IsOwned t
      → 0 < length t.threads
      → Run s k t
      → (m : ℕ) × (u : System V) × Run s m u × IsQuiet u × IsOwned u
  Run-to_rest zero h v some_thread run = absurd (omega arith)
  Run-to_rest (suc fuel) {s} {t} {k} h v some_thread run =
      elim (IsQuiet-or-Enabled t t.threads t.shared.jobs refl refl v some_thread) [
        | inl quiet ↦ (k, t, run, quiet, v)
        | inr e ↦
            Run-to_rest fuel (omega (arith, turn-work_left t e.left e.right e.place e.move e.inner))
              (Step-IsOwned (turn e.left e.right e.place e.move) v)
              (Step-threads (turn e.left e.right e.place e.move) some_thread)
              (more e.left e.right e.place e.move e.inner run)
      ]

  total-All_idle :
      (w : Stage V → ℕ) (ts : List (Stage V)) → w idle ≡ 0 → All (λ p. p ≡ idle) ts → total w ts ≡ 0
  total-All_idle w [] e quiet = refl
  total-All_idle w (p ∷ ts) e (is_idle, quiet) =
      omega (arith, ap w is_idle, total-All_idle w ts e quiet)

  -- Nothing is held and nothing is marked.
  abbrev pub IsReleased : System V → Type 0
  IsReleased s =
      ((key : String) → contains key s.shared.locks ≡ false)
      × ((key : String) → contains key s.shared.refreshing ≡ false)

  quiet-IsReleased : (s : System V) → IsQuiet s → IsOwned s → IsReleased s
  quiet-IsReleased s (quiet, no_jobs) v = (
    λ key. none_left _ _ (v.lock_owned key) (total-All_idle (holds key) s.threads refl quiet),
    λ key. none_left _ _ (v.refresh_owned key) (
        omega (
          arith,
          total-All_idle (refreshes key) s.threads refl quiet,
          ap (total (job_refreshes key)) no_jobs,
        )),
  )

  -- From any state that the threads can reach, with at least one thread, turns of the requests, jobs
  -- and refreshes that are there lead to a state in which every thread is idle, the queue is empty,
  -- no lock is held and no key is marked.
  pub Reach-comes_to_rest :
      (ttl n : ℕ) {t : System V}
      → Reach (initial ttl (suc n)) t
      → (m : ℕ) × (u : System V) × Run t m u × IsQuiet u × IsReleased u
  Reach-comes_to_rest ttl n {t} r =
      let (m, u, run, quiet, v) =
        Run-to_rest (suc (work_left t)) (omega arith) (Reach-IsOwned ttl (suc n) r)
          (Reach-threads ttl n r) rest in
      (m, u, run, quiet, quiet-IsReleased u quiet v)
