-- ===== src/Dashboard/Buckets.antt =====
-- backend/api_dashboard.py, `_dashboard_build`: the dense buckets against the events of the union.
use native.Mathlib.Nat.{div-mul-le_self, lt-div-mul-add, mul-le-mul_right}
use ghpulse.Prelude.{
  ℕ, suc, ◌+◌, ◌*◌, ◌/◌, ◌≤◌, ◌<◌, ◌≡◌, refl, sym, ap, ◌∙◌, String, Bool, true, false, ◌&&◌, Option,
  List, [], ◌∷◌, arith, ◌==◌, leb, ltb, Bool-cases, inl, inr, All, if◌then◌else◌,
}
use ghpulse.Prelude.Int.{ℤ, pos, negsuc, scale, floor_div, leb_ℤ, ltb_ℤ, ◌≤ℤ◌}
use ghpulse.Prelude.Equality.{same, int_eq}
use ghpulse.Store.{Database}
use ghpulse.Snapshot.{Time}
use ghpulse.Range.{microseconds, Bin, RangeWindow}
use ghpulse.Range.Tiling.{
  higher, lower, plain_bin, dense_bucket_bounds-All, Tiles, dense_bucket_bounds-Tiles,
}
use ghpulse.Dashboard.{
  Panel, Kind, same_panel, same_kind, kind_in, EventRow, event_union, repository_predicate, within,
  sql_epoch, event_rows, rows_of, no_rows, fold_rows, fold_buckets, Folded, Bucket, buckets_of,
  dashboard_panel,
}
use ghpulse.Dashboard.Group.{number, number-congr}
use ghpulse.Dashboard.Counts.{counts_as, entry, total}

-- The SQL group of a time, against the bucket of the loop.
module _ (b k t : ℕ) (width : 0 < b) where
  group_of_bucket :
      k * b ≡ t / (microseconds * b) * b
      → (k * b * microseconds ≤ t) × (t < k * b * microseconds + b * microseconds)
  group_of_bucket e =
      let low = div-mul-le_self t (microseconds * b) in
      let high = lt-div-mul-add {a = t} {b = microseconds * b} (omega arith) in
      (omega arith, omega arith)

  bucket_of_group :
      k * b * microseconds ≤ t
      → t < k * b * microseconds + b * microseconds
      → k * b ≡ t / (microseconds * b) * b
  bucket_of_group low high =
      let q : ℕ = t / (microseconds * b) in
      let below : q * (microseconds * b) ≤ t = div-mul-le_self t (microseconds * b) in
      let above : t < q * (microseconds * b) + microseconds * b =
        lt-div-mul-add {a = t} {b = microseconds * b} (omega arith) in
      elim (Bool-cases (ltb q k)) [
        | inl h ↦
            let m : suc q * b ≤ k * b = mul-le-mul_right b (ground arith) in absurd (omega arith)
        | inr h ↦ elim (Bool-cases (ltb k q)) [
          | inl h' ↦
              let m : suc k * b ≤ q * b = mul-le-mul_right b (ground arith) in absurd (omega arith)
          | inr h' ↦ let e : k ≡ q = ground arith in ap (λ (x : ℕ). x * b) e
        ]
      ]

  same_bucket :
      (k * b == t / (microseconds * b) * b)
      ≡ (leb (k * b * microseconds) t && ltb t (k * b * microseconds + b * microseconds))
  same_bucket = elim (Bool-cases (k * b == t / (microseconds * b) * b)) [
    | inl h ↦ let e = group_of_bucket (ground arith) in rw h (ground arith)
    | inr h ↦
        elim (Bool-cases
          (leb (k * b * microseconds) t && ltb t (k * b * microseconds + b * microseconds))) [
            | inl h' ↦ let e = bucket_of_group (ground arith) (ground arith) in ground arith
            | inr h' ↦ rw (h, h') refl
          ]
  ]

sql_epoch-pos : (b t : ℕ) → sql_epoch b (pos t) ≡ pos (t / (microseconds * b) * b)
unfolding sql_epoch floor_div scale
sql_epoch-pos b t = ground arith

time_in_bin :
    (a z b k : ℕ) (t : ℤ)
    → 0 < b
    → ((leb_ℤ (pos a) t && ltb_ℤ t (pos z)) && same (pos (k * b)) (sql_epoch b t)) ≡ (
        leb_ℤ (pos (higher (k * b * microseconds) a)) t
        && ltb_ℤ t (pos (lower (k * b * microseconds + b * microseconds) z)))
time_in_bin a z b k (pos t) width =
    rw (sql_epoch-pos b t, same_bucket b k t width) (unfold higher lower in ground arith)
time_in_bin a z b k (negsuc t) width = unfold higher lower sql_epoch floor_div scale in ground arith

-- An event of the range falls into a bin exactly if its SQL group has the bin's epoch.
event_in_bin :
    (a z b k : ℕ) (e : EventRow)
    → 0 < b
    → let bin = plain_bin a z b (k * b) in
      (within (pos a) (pos z) e && same bin.epoch (sql_epoch b e.event_at))
      ≡ within bin.left bin.right e
event_in_bin a z b k e width = time_in_bin a z b k e.event_at width

shuffle : (w r p s k : Bool) → ((w && r) && (p && (s && k))) ≡ ((w && s) && (r && (p && k)))
shuffle w r p s k = ground arith

abbrev pub window : String → ℕ → ℕ → ℕ → RangeWindow
window name a z b = record { name = name; start = pos a; stop = pos z; bucket_s = b }

-- The bucket's count of the kind is the number of events of the kind between its edges.
abbrev pub IsCounted : Database → Option String → Panel → Kind → Bucket → Type 0
IsCounted db repository panel kind bucket =
    bucket.counts kind
    ≡ number (λ e. within bucket.start bucket.stop e && counts_as repository panel kind e)
        (event_union db)

-- What the buckets count of a kind, together.
abbrev pub sum_of : Kind → List Bucket → ℕ
sum_of kind [] = 0
sum_of kind (bucket ∷ buckets) = bucket.counts kind + sum_of kind buckets

module _ (db : Database) (a z b : ℕ) (name : String) (repository : Option String) (panel : Panel)
    (keys : List Kind) (kind : Kind) (known : kind_in kind keys ≡ true) (width : 0 < b)
    (order : a < z) where
  abbrev folded : Folded
  folded = fold_rows keys no_rows (rows_of panel (event_rows db (window name a z b) repository))

  count_of_bin :
      (k : ℕ)
      → let bin = plain_bin a z b (k * b) in
        folded.by_epoch bin.epoch kind
        ≡ number
            (λ e. within bin.left bin.right e && counts_as repository panel kind e)
            (event_union db)
  count_of_bin k =
      entry db (window name a z b) repository panel keys kind known (pos (k * b))
      ∙ number-congr _ _ (event_union db) (λ e.
        shuffle (within (pos a) (pos z) e) (repository_predicate repository e)
          (same_panel e.panel panel) (same (pos (k * b)) (sql_epoch b e.event_at))
          (same_kind kind e.kind)
        ∙ ap (λ t. t && counts_as repository panel kind e) (event_in_bin a z b k e width))

  buckets_of-All :
      (bins : List Bin)
      → All (λ bin. (j : ℕ) × (bin ≡ plain_bin a z b (j * b))) bins
      → All (IsCounted db repository panel kind) (buckets_of folded bins)
  unfolding buckets_of
  buckets_of-All [] plain = tt
  buckets_of-All (bin ∷ bins) ((j, e), plain) = (rw e (count_of_bin j), buckets_of-All bins plain)

  -- For a range that is not empty and does not start before 1970, and a kind of the panel: every
  -- bucket of the panel counts the visible events of the kind and of the repository asked for whose
  -- time lies from the bucket's start, inclusive, to its end, exclusive.
  pub dashboard_panel-buckets :
      All
        (IsCounted db repository panel kind)
        (dashboard_panel db (window name a z b) repository panel keys).0
  unfolding dashboard_panel fold_buckets
  dashboard_panel-buckets = buckets_of-All _ (dense_bucket_bounds-All a z b order)

  abbrev counted : EventRow → Bool
  counted = counts_as repository panel kind

  split_count :
      (x y w c : Bool) (m n total : ℕ)
      → (x && y) ≡ false
      → (if x then true else y) ≡ w
      → m + n ≡ total
      → (if x && c then suc m else m) + (if y && c then suc n else n)
        ≡ (if w && c then suc total else total)
  split_count true true w c m n total h k e = cc h
  split_count true false w c m n total h k e = rw (← k) (ground arith)
  split_count false y w c m n total h k e = rw (← k) (ground arith)

  one_side :
      (from mid to : Time) (e : EventRow)
      → from ≤ℤ mid
      → mid ≤ℤ to
      → (within from mid e && within mid to e) ≡ false
  one_side from mid to e h k = ground arith

  cover :
      (from mid to : Time) (e : EventRow)
      → from ≤ℤ mid
      → mid ≤ℤ to
      → (if within from mid e then true else within mid to e) ≡ within from to e
  cover from mid to e h k = ground arith

  number_between :
      (from mid to : Time) (es : List EventRow)
      → from ≤ℤ mid
      → mid ≤ℤ to
      → number (λ e. within from mid e && counted e) es
          + number (λ e. within mid to e && counted e) es
        ≡ number (λ e. within from to e && counted e) es
  number_between from mid to [] h k = omega arith
  number_between from mid to (e ∷ es) h k =
      split_count (within from mid e) (within mid to e) (within from to e) (counted e) _ _ _
        (one_side from mid to e h k) (cover from mid to e h k) (number_between from mid to es h k)

  none_inside : (t : Time) (e : EventRow) → within t t e ≡ false
  none_inside t e = ground arith

  none_between : (t : Time) (es : List EventRow) → number (λ e. within t t e && counted e) es ≡ 0
  none_between t [] = refl
  none_between t (e ∷ es) = rw (none_inside t e, none_between t es) refl

  Tiles-≤ℤ : (from to : Time) (bins : List Bin) → Tiles b from to bins → from ≤ℤ to
  Tiles-≤ℤ from to [] e = rw e (omega arith)
  Tiles-≤ℤ from to (bin ∷ bins) (e, order', _, _, _, rest) =
      let r = Tiles-≤ℤ bin.right to bins rest in rw (← e) (omega arith)

  sum_of-buckets_of :
      (from to : Time) (bins : List Bin)
      → Tiles b from to bins
      → All (IsCounted db repository panel kind) (buckets_of folded bins)
      → sum_of kind (buckets_of folded bins)
        ≡ number (λ e. within from to e && counted e) (event_union db)
  unfolding buckets_of
  sum_of-buckets_of from to [] e counts = rw e (sym (none_between to (event_union db)))
  sum_of-buckets_of from to (bin ∷ bins) (e, order', _, _, _, rest) (count, counts) =
      rw (count, sum_of-buckets_of bin.right to bins rest counts, ← e)
        (number_between bin.left bin.right to (event_union db) (omega arith)
          (Tiles-≤ℤ bin.right to bins rest))

  -- For a range that is not empty and does not start before 1970, and a kind of the panel: the total
  -- of the kind is the sum of its buckets' counts.
  pub dashboard_panel-totals :
      (dashboard_panel db (window name a z b) repository panel keys).1 kind
      ≡ sum_of kind (dashboard_panel db (window name a z b) repository panel keys).0
  unfolding dashboard_panel
  dashboard_panel-totals =
      total db (window name a z b) repository panel keys kind known
      ∙ sym (
          unfold fold_buckets in
          sum_of-buckets_of (pos a) (pos z) _ (dense_bucket_bounds-Tiles a z b width order)
            (buckets_of-All _ (dense_bucket_bounds-All a z b order)))
