-- ===== src/Cache/Refresh.antt =====
-- backend/cache.py below `_TTLCache`: `cache_response`, the key locks and the background refreshes, as
-- threads that take turns. A turn is what runs under one lock, or one call of the endpoint; the
-- endpoint's results and the clock are free. Any thread may serve as a worker of the pool, and which
-- submissions the pool itself refuses is free too.
pub mod Ownership
pub mod Progress
pub mod Quiet
mod Tests
use ghpulse.Prelude.{
  ℕ, String, Bool, true, false, not, ◌||◌, Option, none, some, List, [], ◌∷◌, ◌++◌, ◌≡◌, contains,
  str_eq, if◌then◌else◌,
}
use ghpulse.Cache.{TtlCache, get_entry, put, invalidate, put_if_generation}

-- `xs.discard(k)` on a set
unfoldable pub discard : String → List String → List String
discard k [] = []
discard k (x ∷ xs) = let rest = discard k xs in if str_eq x k then rest else x ∷ rest

-- What is handed to the pool: `_run` of `_schedule_refresh` with its key and generation, or of `warm`.
pub data Job : Type 0 where
  refresh_job : String → ℕ → Job
  warm_job : String → Job

pub record Shared (V : Type 0) : Type 0 where
  pub cache : TtlCache V
  -- `_refreshing`
  pub refreshing : List String
  -- the keys of `_key_locks` whose lock is held
  pub locks : List String
  -- what the pool has accepted and not begun, the oldest first
  pub jobs : List Job
  pub accepting : Bool

-- Where a thread stands. A value that is carried along is what the request will return.
pub data Stage (V : Type 0) : Type 0 where
  idle : Stage V
  bypassing : Stage V
  looking : String → Stage V
  scheduling : String → V → Stage V
  reserved : String → V → Stage V
  submitting : String → ℕ → V → Stage V
  abandoning : String → V → Stage V
  waiting : String → Stage V
  locked : String → Stage V
  computing : String → Stage V
  leaving : String → Option V → Stage V
  returned : V → Stage V
  running : String → ℕ → Stage V
  finishing : String → Stage V

pub record System (V : Type 0) : Type 0 where
  pub shared : Shared V
  pub threads : List (Stage V)

module _ {V : Type 0} where
  unfoldable pub start_refresh_workers : Shared V → Shared V
  start_refresh_workers s = record s { accepting = true }

  -- The flag; the pool that is dropped runs what it has accepted.
  unfoldable pub stop_refresh_workers : Shared V → Shared V
  stop_refresh_workers s = record s { accepting = false }

  -- Whether the job was taken, and the state after.
  unfoldable pub submit_refresh : (refused : Bool) → Job → Shared V → Bool × Shared V
  submit_refresh refused job s =
      if not s.accepting || refused
      then (false, s)
      else (true, record s { jobs = s.jobs ++ job ∷ [] })

  -- The first test of `_schedule_refresh`.
  unfoldable pub reserve : String → V → Shared V → Stage V × Shared V
  reserve key value s =
      if contains key s.refreshing
      then (returned value, s)
      else (reserved key value, record s { refreshing = key ∷ s.refreshing })

  unfoldable pub release_refresh : String → Shared V → Shared V
  release_refresh key s = record s { refreshing = discard key s.refreshing }

  abbrev after_submit : String → V → Bool → Stage V
  after_submit key value true = returned value
  after_submit key value false = abandoning key value

  -- The wrapper's first look: a hit is returned, a stale one schedules a refresh first.
  abbrev pub after_look : String → Option (V × Bool) → Stage V
  after_look key none = waiting key
  after_look key (some (value, is_stale)) =
      if is_stale then scheduling key value else returned value

  -- The second look, under the key's lock.
  abbrev pub after_second_look : String → Option (V × Bool) → Stage V
  after_second_look key none = computing key
  after_second_look key (some (value, is_stale)) = leaving key (some value)

  abbrev after_leave : Option V → Stage V
  after_leave none = idle
  after_leave (some value) = returned value

  abbrev begin : Job → Stage V
  begin (refresh_job key generation) = running key generation
  begin (warm_job key) = looking key

  unfoldable pub look : String → ℕ → Shared V → Stage V × Shared V
  look key now s =
      let (entry, c) = get_entry key now s.cache in (after_look key entry, record s { cache = c })

  unfoldable pub look_again : String → ℕ → Shared V → Stage V × Shared V
  look_again key now s =
      let (entry, c) = get_entry key now s.cache in
      (after_second_look key entry, record s { cache = c })

  unfoldable pub submit : (refused : Bool) → String → ℕ → V → Shared V → Stage V × Shared V
  unfolding submit_refresh
  submit refused key generation value s =
      let (taken, s') = submit_refresh refused (refresh_job key generation) s in
      (after_submit key value taken, s')

  -- One turn of a thread: the state and its stage, before and after.
  pub data Move (s : Shared V) : Stage V → Shared V → Stage V → Type 0 where
    request : (key : String) → Move s idle s (looking key)
    request_fresh : Move s idle s bypassing
    bypass : (value : V) → Move s bypassing s (returned value)
    bypass_fails : Move s bypassing s idle
    warm :
        (refused : Bool) (key : String)
        → Move s idle (submit_refresh refused (warm_job key) s).1 idle
    take_job :
        (job : Job) (rest : List Job)
        → s.jobs ≡ job ∷ rest
        → Move s idle (record s { jobs = rest }) (begin job)
    look_first :
        (key : String) (now : ℕ) → Move s (looking key) (look key now s).1 (look key now s).0
    schedule :
        (key : String) (value : V)
        → Move s (scheduling key value) (reserve key value s).1 (reserve key value s).0
    read_generation :
        (key : String) (value : V)
        → Move s (reserved key value) s (submitting key s.cache.generation value)
    hand_over :
        (refused : Bool) (key : String) (generation : ℕ) (value : V)
        → Move s
            (submitting key generation value)
            (submit refused key generation value s).1
            (submit refused key generation value s).0
    abandon :
        (key : String) (value : V)
        → Move s (abandoning key value) (release_refresh key s) (returned value)
    acquire :
        (key : String)
        → contains key s.locks ≡ false
        → Move s (waiting key) (record s { locks = key ∷ s.locks }) (locked key)
    look_second :
        (key : String) (now : ℕ)
        → Move s (locked key) (look_again key now s).1 (look_again key now s).0
    compute :
        (key : String) (value : V) (now : ℕ)
        → Move s
            (computing key)
            (record s { cache = put key value now s.cache })
            (leaving key (some value))
    compute_fails : (key : String) → Move s (computing key) s (leaving key none)
    leave :
        (key : String) (result : Option V)
        → Move s
            (leaving key result)
            (record s { locks = discard key s.locks })
            (after_leave result)
    finish_request : (value : V) → Move s (returned value) s idle
    publish :
        (key : String) (generation : ℕ) (value : V) (now : ℕ)
        → Move s
            (running key generation)
            (record s { cache = (put_if_generation key value generation now s.cache).1 })
            (finishing key)
    refresh_fails :
        (key : String) (generation : ℕ) → Move s (running key generation) s (finishing key)
    finish_refresh : (key : String) → Move s (finishing key) (release_refresh key s) idle

  -- A thread takes its turn, an ingestion invalidates the cache, or the application starts or stops
  -- the workers.
  pub data Step (s : System V) : System V → Type 0 where
    turn :
        {p q : Stage V} {after : Shared V} (left right : List (Stage V))
        → s.threads ≡ left ++ p ∷ right
        → Move s.shared p after q
        → Step s (record { shared = after; threads = left ++ q ∷ right })
    ingested : Step s (record s { shared = record s.shared { cache = invalidate s.shared.cache } })
    started : Step s (record s { shared = start_refresh_workers s.shared })
    stopped : Step s (record s { shared = stop_refresh_workers s.shared })

  pub data Reach (s : System V) : System V → Type 0 where
    here : Reach s s
    next : {t u : System V} → Reach s t → Step t u → Reach s u
