-- ===== src/Dashboard/Window/Resolved.antt =====
-- backend/api_dashboard.py, `build_window`: the window against the range and the events.
use mathlib.Core.Path.{subst}
use ghpulse.Prelude.{
  String, Bool, true, false, ◌||◌, ◌≡◌, ◌⊎◌, refl, Option, none, some, List, [], ◌∷◌, str_eq, ok,
  >>=-eq-ok, All, arith, Bool-cases, Option-cases, inl, inr,
}
use ghpulse.Prelude.Int.{ℤ, ◌-ℤ◌, ◌≤ℤ◌, leb_ℤ, ltb_ℤ, min_ℤ}
use ghpulse.Prelude.Equality.{same, int_eq}
use ghpulse.Snapshot.{Time}
use ghpulse.Store.{Database}
use ghpulse.Range.{RangeWindow, bucket_seconds}
use ghpulse.Range.Parse.{parse_range}
use ghpulse.Range.Parse.Accepted.{IsRange, parse_range_iff}
use ghpulse.Dashboard.{EventRow, event_union, repository_predicate, select}
use ghpulse.Dashboard.Window.{
  min_event, event_bounds, min_datetime, subtract, build_window, all_window,
}

-- Whether an event has a time.
abbrev pub happens_at : Time → List EventRow → Bool
happens_at t [] = false
happens_at t (e ∷ es) = same e.event_at t || happens_at t es

abbrev pub IsFirst : List EventRow → Time → Type 0
IsFirst es t = All (λ e. t ≤ℤ e.event_at) es × (happens_at t es ≡ true)

or_true : (b : Bool) → (b || true) ≡ true
or_true true = refl
or_true false = refl

earlier-All :
    (t u : Time) (es : List EventRow)
    → t ≤ℤ u
    → All (λ e. u ≤ℤ e.event_at) es
    → All (λ e. t ≤ℤ e.event_at) es
earlier-All t u [] le h = tt
earlier-All t u (e ∷ es) le (h, hs) = (omega arith, earlier-All t u es le hs)

min_event-none : (es : List EventRow) → min_event es ≡ none → es ≡ []
unfolding min_event
min_event-none [] h = refl
min_event-none (e ∷ es) h = elim (Option-cases (min_event es)) [
  | inl none_later ↦ cc (rw none_later at h)
  | inr (u, found) ↦ cc (rw found at h)
]

itself : (t : Time) → same t t ≡ true
itself t = (int_eq.eqb_iff t t).1 refl

min_event-IsFirst : (es : List EventRow) (t : Time) → min_event es ≡ some t → IsFirst es t
unfolding min_event min_ℤ
min_event-IsFirst [] t h = cc h
min_event-IsFirst (e ∷ es) t h = elim (Option-cases (min_event es)) [
  | inl none_later ↦
      let is : e.event_at ≡ t = cc (rw none_later at h) in
      rw (min_event-none es none_later, ← is) ((omega arith, tt), rw (itself e.event_at) refl)
  | inr (u, found) ↦
      let (later, attained) = min_event-IsFirst es u found in
      elim (Bool-cases (leb_ℤ e.event_at u)) [
        | inl le ↦
            let is : e.event_at ≡ t = cc (rw (found, le) at h) in
            subst (IsFirst (e ∷ es)) is (
              (omega arith, earlier-All e.event_at u es (ground arith) later),
              rw (itself e.event_at) refl,
            )
        | inr gt ↦
            let is : u ≡ t = cc (rw (found, gt) at h) in
            subst (IsFirst (e ∷ es)) is
              ((ground arith, later), rw attained (or_true (same e.event_at u)))
      ]
]

-- The window of a range that resolves: up to the clock; for all time from the first event that
-- the response can count, and empty without one; else as far back as the range says.
abbrev pub IsResolved : Time → Database → String → Option String → RangeWindow → Type 0
IsResolved now db rng repository w =
    let events = select (repository_predicate repository) (event_union db) in
    (w.stop ≡ now)
    × (((str_eq rng "all" ≡ true)
          × ((IsFirst events w.start × (w.bucket_s ≡ bucket_seconds (w.stop -ℤ w.start)))
              ⊎ ((events ≡ []) × (w.start ≡ now))))
        ⊎ ((delta : ℤ) × IsRange rng delta
            × (w.start ≡ now -ℤ delta)
            × (min_datetime ≤ℤ w.start)
            × (w.bucket_s ≡ bucket_seconds delta)))

module _ (parsed_at now : Time) (db : Database) (rng : String) (repository : Option String) where
  all_window-IsResolved :
      (delta : ℤ) (found : Option Time)
      → event_bounds db repository ≡ found
      → str_eq rng "all" ≡ true
      → IsResolved now db rng repository (all_window rng now delta found)
  unfolding event_bounds
  all_window-IsResolved delta none e is_all = (refl, inl (is_all, inr (min_event-none _ e, refl)))
  all_window-IsResolved delta (some t) e is_all =
      (refl, inl (is_all, inl (min_event-IsFirst _ t e, refl)))

  subtract-ok :
      (delta : ℤ) (start : Time)
      → subtract now delta ≡ ok start
      → (start ≡ now -ℤ delta) × (min_datetime ≤ℤ start)
  unfolding subtract
  subtract-ok delta start h = elim (Bool-cases (ltb_ℤ (now -ℤ delta) min_datetime)) [
    | inl e ↦ cc (rw e at h)
    | inr e ↦ let is : now -ℤ delta ≡ start = cc (rw e at h) in rw (← is) (refl, ground arith)
  ]

  -- A window that resolves ends at the clock. For the range all it starts at the first of the
  -- visible events of the repository asked for, with the width that suits the span from there, or
  -- is empty when there is none. For another range this is a positive numeral with d or h that a
  -- time span can hold, the window starts that much before its end and not before the year 1, and
  -- its width suits that span.
  pub build_window-IsResolved :
      (w : RangeWindow)
      → build_window parsed_at now db rng repository ≡ ok w
      → IsResolved now db rng repository w
  unfolding build_window
  build_window-IsResolved w h =
      let (delta, parsed, rest) = >>=-eq-ok (parse_range parsed_at rng) _ h in
      elim (Bool-cases (str_eq rng "all")) [
        | inl e ↦
            let is : all_window rng now delta (event_bounds db repository) ≡ w =
              cc (rw e at rest) in
            rw (← is) (all_window-IsResolved delta (event_bounds db repository) refl e)
        | inr e ↦
            let (start, moved, last) = >>=-eq-ok (subtract now delta) _ (rw e at rest) in
            let (is, bound) = subtract-ok delta start moved in
            let made : record {
              name = rng;
              start = start;
              stop = now;
              bucket_s = bucket_seconds delta;
            }
                ≡ w =
              cc last in
            subst (IsResolved now db rng repository) made
              (refl, inr (delta, (parse_range_iff parsed_at rng delta e).0 parsed, is, bound, refl))
      ]
