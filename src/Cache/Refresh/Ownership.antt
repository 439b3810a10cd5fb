-- ===== src/Cache/Refresh/Ownership.antt =====
-- backend/cache.py: every key lock that is held and every key that is being refreshed has one owner.
use ghpulse.Prelude.{
  ℕ, zero, suc, ◌+◌, String, Bool, true, false, ◌≡◌, refl, sym, ap, ◌∙◌, none, some, List, [], ◌∷◌,
  ◌++◌, contains, str_eq, eq_iff, if◌then◌else◌, arith, Option-cases, inl, inr,
}
use ghpulse.Cache.{empty, get_entry}
use ghpulse.Cache.Refresh.{
  discard, Job, refresh_job, warm_job, Shared, Stage, idle, bypassing, looking, scheduling,
  reserved, submitting, abandoning, waiting, locked, computing, leaving, returned, running,
  finishing, start_refresh_workers, stop_refresh_workers, submit_refresh, reserve, release_refresh,
  look, look_again, submit, Move, request, request_fresh, bypass, bypass_fails, warm, take_job,
  look_first, schedule, read_generation, hand_over, abandon, acquire, look_second, compute,
  compute_fails, leave, finish_request, publish, refresh_fails, finish_refresh, System, Step, turn,
  ingested, started, stopped, Reach, here, next,
}

abbrev pub one_if : Bool → ℕ
one_if true = 1
one_if false = 0

-- Whether a stage is between taking a key's lock and giving it back.
abbrev pub holds : {V : Type 0} → String → Stage V → ℕ
holds key (locked k) = one_if (str_eq k key)
holds key (computing k) = one_if (str_eq k key)
holds key (leaving k r) = one_if (str_eq k key)
holds key idle = 0
holds key bypassing = 0
holds key (looking k) = 0
holds key (scheduling k v) = 0
holds key (reserved k v) = 0
holds key (submitting k g v) = 0
holds key (abandoning k v) = 0
holds key (waiting k) = 0
holds key (returned v) = 0
holds key (running k g) = 0
holds key (finishing k) = 0

-- Whether a stage is between marking a key as being refreshed and taking the mark back.
abbrev pub refreshes : {V : Type 0} → String → Stage V → ℕ
refreshes key (reserved k v) = one_if (str_eq k key)
refreshes key (submitting k g v) = one_if (str_eq k key)
refreshes key (abandoning k v) = one_if (str_eq k key)
refreshes key (running k g) = one_if (str_eq k key)
refreshes key (finishing k) = one_if (str_eq k key)
refreshes key idle = 0
refreshes key bypassing = 0
refreshes key (looking k) = 0
refreshes key (scheduling k v) = 0
refreshes key (waiting k) = 0
refreshes key (locked k) = 0
refreshes key (computing k) = 0
refreshes key (leaving k r) = 0
refreshes key (returned v) = 0

abbrev pub job_refreshes : String → Job → ℕ
job_refreshes key (refresh_job k g) = one_if (str_eq k key)
job_refreshes key (warm_job k) = 0

abbrev pub total : {A : Type 0} → (A → ℕ) → List A → ℕ
total w [] = 0
total w (x ∷ xs) = w x + total w xs

pub total-append :
    {A : Type 0} (w : A → ℕ) (xs ys : List A) → total w (xs ++ ys) ≡ total w xs + total w ys
total-append w [] ys = omega arith
total-append w (x ∷ xs) ys = omega (arith, total-append w xs ys)

contains-discard :
    (k j : String) (xs : List String)
    → contains j (discard k xs) ≡ (if str_eq k j then false else contains j xs)
unfolding discard
contains-discard k j [] = ground arith
contains-discard k j (x ∷ xs) =
    ground (arith, contains-discard k j xs, eq_iff x k, eq_iff x j, eq_iff k j)

-- How many threads hold the lock of a key.
abbrev pub holders : {V : Type 0} → String → System V → ℕ
holders key s = total (holds key) s.threads

-- How many threads and queued jobs refresh a key.
abbrev pub refreshers : {V : Type 0} → String → System V → ℕ
refreshers key s = total (refreshes key) s.threads + total (job_refreshes key) s.shared.jobs

-- Every lock that is held has one holder, and every key marked has one refresher; no other has any.
pub record IsOwned {V : Type 0} (s : System V) : Type 0 where
  pub lock_owned : (key : String) → holders key s ≡ one_if (contains key s.shared.locks)
  pub refresh_owned : (key : String) → refreshers key s ≡ one_if (contains key s.shared.refreshing)

module _ {V : Type 0} where
  -- One turn against the rest of the threads.
  Move-lock :
      {s after : Shared V} {p q : Stage V}
      → Move s p after q
      → (key : String) (others : ℕ) → others + holds key p ≡ one_if (contains key s.locks)
      → others + holds key q ≡ one_if (contains key after.locks)
  unfolding look look_again reserve submit submit_refresh release_refresh
  Move-lock {s} (request k) key others h = h
  Move-lock {s} request_fresh key others h = h
  Move-lock {s} (bypass v) key others h = h
  Move-lock {s} bypass_fails key others h = h
  Move-lock {s} (warm r k) key others h = ground arith
  Move-lock {s} (take_job (refresh_job k g) rest e) key others h = h
  Move-lock {s} (take_job (warm_job k) rest e) key others h = h
  Move-lock {s} (look_first k now) key others h = elim (Option-cases (get_entry k now s.cache).0) [
    | inl e ↦ rw e h
    | inr ((v, b), e) ↦ rw e (ground arith)
  ]
  Move-lock {s} (schedule k v) key others h = ground arith
  Move-lock {s} (read_generation k v) key others h = h
  Move-lock {s} (hand_over r k g v) key others h = ground arith
  Move-lock {s} (abandon k v) key others h = h
  Move-lock {s} (acquire k free) key others h = ground (arith, eq_iff k key)
  Move-lock {s} (look_second k now) key others h = elim (Option-cases (get_entry k now s.cache).0) [
    | inl e ↦ rw e h
    | inr ((v, b), e) ↦ rw e h
  ]
  Move-lock {s} (compute k v now) key others h = h
  Move-lock {s} (compute_fails k) key others h = h
  Move-lock {s} (leave k none) key others h =
      ground (arith, contains-discard k key s.locks, eq_iff k key)
  Move-lock {s} (leave k (some v)) key others h =
      ground (arith, contains-discard k key s.locks, eq_iff k key)
  Move-lock {s} (finish_request v) key others h = h
  Move-lock {s} (publish k g v now) key others h = h
  Move-lock {s} (refresh_fails k g) key others h = h
  Move-lock {s} (finish_refresh k) key others h = h

  Move-refresh :
      {s after : Shared V} {p q : Stage V}
      → Move s p after q
      → (key : String) (others : ℕ)
      → others + refreshes key p + total (job_refreshes key) s.jobs
        ≡ one_if (contains key s.refreshing)
      → others + refreshes key q + total (job_refreshes key) after.jobs
        ≡ one_if (contains key after.refreshing)
  unfolding look look_again reserve submit submit_refresh release_refresh
  Move-refresh {s} (request k) key others h = h
  Move-refresh {s} request_fresh key others h = h
  Move-refresh {s} (bypass v) key others h = h
  Move-refresh {s} bypass_fails key others h = h
  Move-refresh {s} (warm r k) key others h =
      ground (arith, total-append (job_refreshes key) s.jobs (warm_job k ∷ []))
  Move-refresh {s} (take_job (refresh_job k g) rest e) key others h =
      omega (arith, h, ap (total (job_refreshes key)) e)
  Move-refresh {s} (take_job (warm_job k) rest e) key others h =
      omega (arith, h, ap (total (job_refreshes key)) e)
  Move-refresh {s} (look_first k now) key others h =
      elim (Option-cases (get_entry k now s.cache).0) [
        | inl e ↦ rw e h
        | inr ((v, b), e) ↦ rw e (ground arith)
      ]
  Move-refresh {s} (schedule k v) key others h = ground (arith, eq_iff k key)
  Move-refresh {s} (read_generation k v) key others h = h
  Move-refresh {s} (hand_over r k g v) key others h =
      ground (arith, total-append (job_refreshes key) s.jobs (refresh_job k g ∷ []))
  Move-refresh {s} (abandon k v) key others h =
      ground (arith, contains-discard k key s.refreshing, eq_iff k key)
  Move-refresh {s} (acquire k free) key others h = h
  Move-refresh {s} (look_second k now) key others h =
      elim (Option-cases (get_entry k now s.cache).0) [ inl e ↦ rw e h | inr ((v, b), e) ↦ rw e h ]
  Move-refresh {s} (compute k v now) key others h = h
  Move-refresh {s} (compute_fails k) key others h = h
  Move-refresh {s} (leave k none) key others h = h
  Move-refresh {s} (leave k (some v)) key others h = h
  Move-refresh {s} (finish_request v) key others h = h
  Move-refresh {s} (publish k g v now) key others h = h
  Move-refresh {s} (refresh_fails k g) key others h = h
  Move-refresh {s} (finish_refresh k) key others h =
      ground (arith, contains-discard k key s.refreshing, eq_iff k key)

  pub at_thread :
      (w : Stage V → ℕ) (left right : List (Stage V)) (p : Stage V)
      → total w (left ++ p ∷ right) ≡ total w left + total w right + w p
  at_thread w left right p = omega (arith, total-append w left (p ∷ right))

  pub Step-IsOwned : {s t : System V} → Step s t → IsOwned s → IsOwned t
  unfolding start_refresh_workers stop_refresh_workers
  Step-IsOwned {s} (turn {p} {q} {after} left right e mv) v = record {
    lock_owned = λ key.
        at_thread (holds key) left right q
        ∙ Move-lock mv key (total (holds key) left + total (holds key) right) (
            sym (ap (total (holds key)) e ∙ at_thread (holds key) left right p) ∙ v.lock_owned key);
    refresh_owned = λ key.
        ap (λ (n : ℕ). n + total (job_refreshes key) after.jobs)
          (at_thread (refreshes key) left right q)
        ∙ Move-refresh mv key (total (refreshes key) left + total (refreshes key) right) (
            sym (
              ap (λ (n : ℕ). n + total (job_refreshes key) s.shared.jobs)
                (ap (total (refreshes key)) e ∙ at_thread (refreshes key) left right p))
            ∙ v.refresh_owned key);
  }
  Step-IsOwned ingested v = record { lock_owned = v.lock_owned; refresh_owned = v.refresh_owned }
  Step-IsOwned started v = record { lock_owned = v.lock_owned; refresh_owned = v.refresh_owned }
  Step-IsOwned stopped v = record { lock_owned = v.lock_owned; refresh_owned = v.refresh_owned }

  abbrev pub idles : ℕ → List (Stage V)
  idles zero = []
  idles (suc n) = idle ∷ idles n

  -- The module as it is loaded, with some threads.
  abbrev pub initial : (ttl threads : ℕ) → System V
  initial ttl threads = record {
    shared = record { cache = empty ttl; refreshing = []; locks = []; jobs = []; accepting = true };
    threads = idles threads;
  }

  total-idles : (w : Stage V → ℕ) (n : ℕ) → w idle ≡ 0 → total w (idles n) ≡ 0
  total-idles w zero e = refl
  total-idles w (suc n) e = omega (arith, total-idles w n e)

  initial-IsOwned : (ttl n : ℕ) → IsOwned (initial ttl n)
  initial-IsOwned ttl n = record {
    lock_owned = λ key. total-idles (holds key) n refl;
    refresh_owned = λ key. omega (arith, total-idles (refreshes key) n refl);
  }

  -- Whatever the threads do, in any order: the lock of a key has one holder while it is held, and no
  -- thread acts under it otherwise; a key marked as being refreshed has one thread or one queued job
  -- that will take the mark back, and no key without the mark is refreshed.
  pub Reach-IsOwned : (ttl n : ℕ) {t : System V} → Reach (initial ttl n) t → IsOwned t
  Reach-IsOwned ttl n here = initial-IsOwned ttl n
  Reach-IsOwned ttl n (next r st) = Step-IsOwned st (Reach-IsOwned ttl n r)
