-- ===== src/Range/Tiling.antt =====
-- backend/api_common.py, `dense_bucket_bounds`: the bins cut the range into adjacent pieces.
use native.Mathlib.Nat.{div-mul-le_self, lt-div-mul-add, le-div_iff_mul-le}
use ghpulse.Prelude.{
  ℕ, zero, suc, ◌+◌, ◌-◌, ◌*◌, ◌/◌, ◌≤◌, ◌<◌, ◌≡◌, refl, ap, ◌∙◌, true, false, List, [], ◌∷◌, arith,
  leb, All, if◌then◌else◌, Bool-cases, inl, inr,
}
use ghpulse.Prelude.Int.{
  ℤ, pos, pos_part, ◌+ℤ◌, ◌-ℤ◌, ◌≤ℤ◌, ◌<ℤ◌, scale, floor_div, trunc_div, leb_ℤ, min_ℤ, max_ℤ,
}
use mathlib.Core.Path.{ap₂, subst, subst₂}
use ghpulse.Snapshot.{Time}
use ghpulse.Range.{
  microseconds, Bin, bin_at, bins_from, dense_bucket_bounds, bucket_epoch, epoch_seconds, at_epoch,
}

-- The bins run from one time to another without a gap or an overlap; none is empty, and each lies
-- in the bucket of its epoch, a multiple of the bucket's width.
abbrev pub Tiles : ℕ → Time → Time → List Bin → Type 0
Tiles bucket_s from to [] = from ≡ to
Tiles bucket_s from to (bin ∷ rest) =
    (bin.left ≡ from)
    × (bin.left <ℤ bin.right)
    × ((k : ℕ) × (bin.epoch ≡ pos (k * bucket_s)))
    × (at_epoch bin.epoch ≤ℤ bin.left)
    × (bin.right ≤ℤ at_epoch bin.epoch +ℤ pos (bucket_s * microseconds))
    × Tiles bucket_s bin.right to rest

unfoldable pub higher : ℕ → ℕ → ℕ
higher x y = if leb x y then y else x

unfoldable pub lower : ℕ → ℕ → ℕ
lower x y = if leb x y then x else y

pos-+ℤ : (x y : ℕ) → pos x +ℤ pos y ≡ pos (x + y)
unfolding ◌+ℤ◌
pos-+ℤ x y = ground arith

at_epoch-pos : (c : ℕ) → at_epoch (pos c) ≡ pos (c * microseconds)
unfolding scale
at_epoch-pos c = ground arith

max_ℤ-pos : (x y : ℕ) → max_ℤ (pos x) (pos y) ≡ pos (higher x y)
unfolding max_ℤ higher
max_ℤ-pos x y = ground arith

min_ℤ-pos : (x y : ℕ) → min_ℤ (pos x) (pos y) ≡ pos (lower x y)
unfolding min_ℤ lower
min_ℤ-pos x y = ground arith

module _ (a z b : ℕ) where
  -- One bin over natural numbers.
  abbrev pub plain_bin : ℕ → Bin
  plain_bin c = record {
    left = pos (higher (c * microseconds) a);
    right = pos (lower (c * microseconds + b * microseconds) z);
    epoch = pos c;
  }

  bin_at-pos : (c : ℕ) → bin_at (pos a) (pos z) b (pos c) ≡ plain_bin c
  bin_at-pos c = λ i. record {
    left = (ap (λ t. max_ℤ t (pos a)) (at_epoch-pos c) ∙ max_ℤ-pos (c * microseconds) a) i;
    right =
        (ap (λ t. min_ℤ (t +ℤ pos (b * microseconds)) (pos z)) (at_epoch-pos c)
            ∙ ap (λ t. min_ℤ t (pos z)) (pos-+ℤ (c * microseconds) (b * microseconds))
            ∙ min_ℤ-pos (c * microseconds + b * microseconds) z)
          i;
    epoch = pos c;
  }

  bins_from_done : (fuel c l : ℕ) → l < c → bins_from (pos a) (pos z) b fuel (pos c) (pos l) ≡ []
  unfolding bins_from
  bins_from_done zero c l h = refl
  bins_from_done (suc fuel) c l h = ground arith

  test_passes : (c l : ℕ) → c ≤ l → leb_ℤ (pos c) (pos l) ≡ true
  test_passes c l h = ground arith

  bins_from_step :
      (fuel c l : ℕ)
      → c ≤ l
      → bins_from (pos a) (pos z) b (suc fuel) (pos c) (pos l)
        ≡ plain_bin c ∷ bins_from (pos a) (pos z) b fuel (pos (c + b)) (pos l)
  unfolding bins_from
  bins_from_step fuel c l h = rw (test_passes c l h) (
      ap₂ (λ (bin : Bin) (t : ℤ). bin ∷ bins_from (pos a) (pos z) b fuel t (pos l)) (bin_at-pos c)
        (pos-+ℤ c b))

  plain_bin-Tiles :
      (c k : ℕ) (rest : List Bin)
      → c ≡ k * b
      → a < c * microseconds + b * microseconds
      → a < z
      → c * microseconds < z
      → 0 < b
      → Tiles b (pos (lower (c * microseconds + b * microseconds) z)) (pos z) rest
      → Tiles b (pos (higher (c * microseconds) a)) (pos z) (plain_bin c ∷ rest)
  plain_bin-Tiles c k rest e first order last width h = (
    refl,
    unfold higher lower in ground arith,
    (k, ap pos e),
    rw at_epoch-pos (unfold higher in ground arith),
    rw (at_epoch-pos, pos-+ℤ) (unfold lower in ground arith),
    h,
  )

  suc-mul : (k : ℕ) → suc k * b ≡ k * b + b
  suc-mul k = omega arith

  -- Every bin of the loop is a bin over natural numbers, at a multiple of the width.
  bins_from-All :
      (fuel k l : ℕ)
      → All
          (λ bin. (j : ℕ) × (bin ≡ plain_bin (j * b)))
          (bins_from (pos a) (pos z) b fuel (pos (k * b)) (pos l))
  bins_from-All zero k l = unfold bins_from in tt
  bins_from-All (suc fuel) k l = elim (Bool-cases (leb (k * b) l)) [
    | inl h ↦ rw (bins_from_step fuel (k * b) l (ground arith)) (
      (k, refl),
      subst
          (λ (c : ℕ).
            All (λ bin. (j : ℕ) × (bin ≡ plain_bin (j * b)))
              (bins_from (pos a) (pos z) b fuel (pos c) (pos l)))
          (suc-mul k) (bins_from-All fuel (suc k) l),
    )
    | inr h ↦ rw (bins_from_done (suc fuel) (k * b) l (ground arith)) tt
  ]

  last_edge :
      (c l : ℕ)
      → l ≡ c
      → l * microseconds < z
      → z ≤ l * microseconds + b * microseconds
      → lower (c * microseconds + b * microseconds) z ≡ z
  unfolding lower
  last_edge c l e last end = ground arith

  meeting_edges : (x y : ℕ) → y ≡ x → a < x → x ≤ z → higher y a ≡ lower x z
  unfolding higher lower
  meeting_edges x y e h k = ground arith

  edge_after :
      (k n l : ℕ)
      → l ≡ k * b + suc n * b
      → a < k * b * microseconds + b * microseconds
      → l * microseconds < z
      → higher (suc k * b * microseconds) a ≡ lower (k * b * microseconds + b * microseconds) z
  edge_after k n l e first last =
      meeting_edges (k * b * microseconds + b * microseconds) (suc k * b * microseconds)
        (omega arith) first (omega arith)

  bins_from-Tiles :
      (fuel n k l : ℕ)
      → n < fuel
      → 0 < b
      → l ≡ k * b + n * b
      → a < (k * b) * microseconds + b * microseconds
      → a < z
      → l * microseconds < z
      → z ≤ l * microseconds + b * microseconds
      → Tiles b
          (pos (higher (k * b * microseconds) a))
          (pos z)
          (bins_from (pos a) (pos z) b fuel (pos (k * b)) (pos l))
  bins_from-Tiles zero n k l enough width e first order last end = absurd (omega arith)
  bins_from-Tiles (suc fuel) zero k l enough width e first order last end =
      let e' : l ≡ k * b = omega arith in
      rw
        (
          bins_from_step fuel (k * b) l (omega arith),
          bins_from_done fuel (k * b + b) l (omega arith),
        )
        (plain_bin-Tiles (k * b) k [] refl first order (rw (← e') last) width
          (ap pos (last_edge (k * b) l e' last end)))
  bins_from-Tiles (suc fuel) (suc n) k l enough width e first order last end =
      rw (bins_from_step fuel (k * b) l (omega arith)) (
        plain_bin-Tiles (k * b) k _ refl first order (omega arith) width (
          subst₂
            (λ (from first' : ℕ).
              Tiles b (pos from) (pos z) (bins_from (pos a) (pos z) b fuel (pos first') (pos l)))
            (edge_after k n l e first last) (suc-mul k)
            (bins_from-Tiles fuel n (suc k) l (omega arith) width (omega arith) (omega arith) order
              last end)))

bucket_epoch-pos : (t b : ℕ) → bucket_epoch (pos t) b ≡ pos (t / microseconds / b * b)
unfolding bucket_epoch epoch_seconds trunc_div floor_div scale
bucket_epoch-pos t b = ground arith

before_stop : (z : ℕ) → 0 < z → pos z -ℤ pos 1 ≡ pos (z - 1)
unfolding ◌-ℤ◌
before_stop z h = ground arith

span-pos : (x y : ℕ) → pos_part (pos y -ℤ pos x) ≡ y - x
unfolding ◌-ℤ◌
span-pos x y = ground arith

-- The whole seconds of a time, cut down to the bucket's width, and what is cut off.
module _ (b : ℕ) (width : 0 < b) where
  cut_below : (t : ℕ) → t / microseconds / b * b * microseconds ≤ t
  cut_below t = omega (arith, div-mul-le_self (t / microseconds) b)

  cut_above : (t : ℕ) → t < t / microseconds / b * b * microseconds + b * microseconds
  cut_above t = omega (arith, lt-div-mul-add {a = t / microseconds} width)

  cut_mono : (a t : ℕ) → a ≤ t → a / microseconds / b ≤ t / microseconds / b
  cut_mono a t h = (le-div_iff_mul-le width).1 (omega (arith, div-mul-le_self (a / microseconds) b))

  spread : (k m : ℕ) → k ≤ m → m * b ≡ k * b + (m - k) * b
  spread k m h = let e : m ≡ k + (m - k) = omega arith in ap (λ (x : ℕ). x * b) e ∙ omega arith

  le-scaled : (x : ℕ) → x ≤ x * b
  le-scaled zero = omega arith
  le-scaled (suc x) = omega (arith, le-scaled x)

  enough_rounds : (k m : ℕ) → k ≤ m → m - k < suc (m * b - k * b)
  enough_rounds k m h = omega (arith, spread k m h, le-scaled (m - k))

  first_edge : (a : ℕ) → higher (a / microseconds / b * b * microseconds) a ≡ a
  unfolding higher
  first_edge a = ground (arith, cut_below a)

bounds_plain :
    (a z b : ℕ)
    → a < z
    → let first = a / microseconds / b * b in
      let last = (z - 1) / microseconds / b * b in
      dense_bucket_bounds (pos a) (pos z) b
      ≡ bins_from (pos a) (pos z) b (suc (last - first)) (pos first) (pos last)
unfolding dense_bucket_bounds
bounds_plain a z b order = rw (
  before_stop z (omega arith),
  bucket_epoch-pos (z - 1) b,
  bucket_epoch-pos a b,
  span-pos,
  runs a z order,
)
  where
    runs : (a z : ℕ) → a < z → leb_ℤ (pos z) (pos a) ≡ false
    runs a z h = ground arith

-- For a range that starts at or after the epoch and is not empty, the bins run from its start to
-- its end without a gap or an overlap; no bin is empty, every bin's epoch is a multiple of the
-- width, and the bin lies in the bucket of that epoch.
pub dense_bucket_bounds-Tiles :
    (a z b : ℕ) → 0 < b → a < z → Tiles b (pos a) (pos z) (dense_bucket_bounds (pos a) (pos z) b)
dense_bucket_bounds-Tiles a z b width order =
    let k : ℕ = a / microseconds / b in
    let m : ℕ = (z - 1) / microseconds / b in
    let ordered : k ≤ m = cut_mono b width a (z - 1) (omega arith) in
    rw (bounds_plain a z b order) (
      subst
        (λ (from : ℕ).
          Tiles b (pos from) (pos z)
            (bins_from (pos a) (pos z) b (suc (m * b - k * b)) (pos (k * b)) (pos (m * b))))
        (first_edge b width a)
        (bins_from-Tiles a z b (suc (m * b - k * b)) (m - k) k (m * b)
          (enough_rounds b width k m ordered) width (spread b width k m ordered)
          (cut_above b width a) order (omega (arith, cut_below b width (z - 1)))
          (omega (arith, cut_above b width (z - 1)))))

-- Every bin is the bucket of its epoch, cut to the range.
pub dense_bucket_bounds-All :
    (a z b : ℕ)
    → a < z
    → All (λ bin. (j : ℕ) × (bin ≡ plain_bin a z b (j * b))) (dense_bucket_bounds (pos a) (pos z) b)
dense_bucket_bounds-All a z b order = rw (bounds_plain a z b order) (bins_from-All a z b _ _ _)
