-- ===== src/Cache.antt =====
-- backend/cache.py, class `_TTLCache`. Every method runs under `_guard`, so a method is one step;
-- `time.time()` is an argument, in ticks of one fixed resolution. The values are any type.
pub mod History
pub mod Refresh
mod Tests
use ghpulse.Prelude.{
  ℕ, ◌+◌, String, Bool, true, false, not, Option, none, some, [], ltb, ◌==◌, if◌then◌else◌,
}
use ghpulse.Prelude.Dict.{Dict, lookup, insert, remove}

-- The tuple `(value, time, generation)` of `_items`.
pub record Item {ℓ} (V : Type ℓ) : Type ℓ where
  pub value : V
  pub stamp : ℕ
  pub stamped_generation : ℕ

pub record TtlCache {ℓ} (V : Type ℓ) : Type ℓ where
  pub ttl : ℕ
  pub items : Dict (Item V)
  pub generation : ℕ

-- `time.time() - ts > self.ttl_seconds`
abbrev pub is_expired : ℕ → ℕ → ℕ → Bool
is_expired ttl stamp now = ltb (stamp + ttl) now

module _ {ℓ} {V : Type ℓ} where
  abbrev pub empty : ℕ → TtlCache V
  empty ttl = record { ttl = ttl; items = []; generation = 0 }

  -- The item found under the key decides; an expired one is popped.
  abbrev read_item : String → ℕ → TtlCache V → Option (Item V) → Option (V × Bool) × TtlCache V
  read_item key now c none = (none, c)
  read_item key now c (some item) =
      if is_expired c.ttl item.stamp now
      then (none, record c { items = remove key c.items })
      else (some (item.value, not (item.stamped_generation == c.generation)), c)

  -- The value with its staleness, or `none` on a miss or an expiry.
  unfoldable pub get_entry : String → ℕ → TtlCache V → Option (V × Bool) × TtlCache V
  get_entry key now c = read_item key now c (lookup key c.items)

  abbrev value_of : Option (V × Bool) → Option V
  value_of none = none
  value_of (some entry) = some entry.0

  unfoldable pub get : String → ℕ → TtlCache V → Option V × TtlCache V
  unfolding get_entry
  get key now c = let (entry, c') = get_entry key now c in (value_of entry, c')

  unfoldable pub put : String → V → ℕ → TtlCache V → TtlCache V
  put key value now c = record c {
    items =
        insert key (record { value = value; stamp = now; stamped_generation = c.generation })
          c.items;
  }

  unfoldable pub invalidate : TtlCache V → TtlCache V
  invalidate c = record c { generation = c.generation + 1 }

  -- Whether the value was published, and the cache after.
  unfoldable pub put_if_generation : String → V → ℕ → ℕ → TtlCache V → Bool × TtlCache V
  unfolding put
  put_if_generation key value token now c =
      if token == c.generation then (true, put key value now c) else (false, c)

  unfoldable pub clear : TtlCache V → TtlCache V
  clear c = record c { items = []; generation = c.generation + 1 }
