-- ===== src/Range.antt =====
-- backend/api_common.py: the geometry of a selected range. A time is a number of microseconds since
-- the Unix epoch, in UTC, and a `timedelta` a number of microseconds. `total_seconds()` is a float
-- in the source: it is exact as long as the microseconds stay below 2 ^ 53 (the year 2255).

pub mod Tiling
pub mod Width
pub mod Parse
use ghpulse.Prelude.{
  ℕ, zero, suc, ◌+◌, ◌*◌, ◌/◌, String, Bool, true, false, List, [], ◌∷◌, ltb, if◌then◌else◌,
}
use ghpulse.Prelude.Int.{
  ℤ, pos, negsuc, pos_part, ◌+ℤ◌, ◌-ℤ◌, scale, floor_div, trunc_div, leb_ℤ, min_ℤ, max_ℤ,
}
use ghpulse.Snapshot.{Time}

abbrev pub microseconds : ℕ
microseconds = 1000000

pub record RangeWindow : Type 0 where
  pub name : String
  pub start : Time
  pub stop : Time
  pub bucket_s : ℕ

abbrev pub bucket_candidates : List ℕ
bucket_candidates = 60 ∷ 300 ∷ 900 ∷ 1800 ∷ 3600 ∷ 21600 ∷ 43200 ∷ 86400 ∷ []

-- The loop of `_bucket_seconds`: `span_s / candidate < 100` ends it.
unfoldable pub choose : ℕ → ℕ → List ℕ → ℕ
choose span chosen [] = chosen
choose span chosen (candidate ∷ rest) =
    let more = choose span candidate rest in if ltb span (candidate * 100) then chosen else more

-- `max(1, int(delta.total_seconds()))`
unfoldable pub span_seconds : ℤ → ℕ
span_seconds delta = let s = pos_part (trunc_div delta microseconds) in if ltb s 1 then 1 else s

unfoldable pub bucket_seconds : ℤ → ℕ
unfolding choose span_seconds
bucket_seconds delta = choose (span_seconds delta) 60 bucket_candidates

-- `int((value - _EPOCH).total_seconds())`
unfoldable pub epoch_seconds : Time → ℤ
epoch_seconds t = trunc_div t microseconds

-- `epoch_seconds(value) // bucket_s * bucket_s`
unfoldable pub bucket_epoch : Time → ℕ → ℤ
bucket_epoch t bucket_s = scale (floor_div (epoch_seconds t) bucket_s) bucket_s

-- `_EPOCH + timedelta(seconds=s)`
abbrev pub at_epoch : ℤ → Time
at_epoch s = scale s microseconds

-- One entry of `dense_bucket_bounds`: the visible edges, and the epoch of the SQL group.
pub record Bin : Type 0 where
  pub left : Time
  pub right : Time
  pub epoch : ℤ

module _ (start stop : Time) (bucket_s : ℕ) where
  abbrev pub bin_at : ℤ → Bin
  bin_at current = record {
    left = max_ℤ (at_epoch current) start;
    right = min_ℤ (at_epoch current +ℤ pos (bucket_s * microseconds)) stop;
    epoch = current;
  }

  -- The `while` loop, on fuel.
  unfoldable pub bins_from : ℕ → ℤ → ℤ → List Bin
  bins_from zero current last = []
  bins_from (suc fuel) current last =
      let rest = bins_from fuel (current +ℤ pos bucket_s) last in
      if leb_ℤ current last then bin_at current ∷ rest else []

-- Enough rounds for the loop: one for each second from the first epoch to the last, inclusive.
abbrev pub rounds : ℤ → ℤ → ℕ
rounds first last = suc (pos_part (last -ℤ first))

unfoldable pub dense_bucket_bounds : Time → Time → ℕ → List Bin
dense_bucket_bounds start stop bucket_s =
    let first = bucket_epoch start bucket_s in
    let last = bucket_epoch (stop -ℤ pos 1) bucket_s in
    if leb_ℤ stop start then [] else bins_from start stop bucket_s (rounds first last) first last
