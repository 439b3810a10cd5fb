-- ===== src/Dashboard/Window.antt =====
-- backend/api_dashboard.py: `build_window` with the connection that its callers pass, and
-- `validate_repository`. The clock is read twice: for the range `all`, and for the end of the window.
pub mod Resolved
use ghpulse.Prelude.{
  String, Bool, true, false, not, ◌&&◌, Option, none, some, List, [], ◌∷◌, str_eq, Result, ok, err,
  ◌>>=◌, ◌>>◌, raise_if, if◌then◌else◌,
}
use ghpulse.Prelude.Int.{ℤ, negsuc, ◌-ℤ◌, ltb_ℤ, min_ℤ}
use ghpulse.Prelude.Dict.{Dict, lookup}
use ghpulse.Snapshot.{Time}
use ghpulse.Store.{RepositoryRow, Database}
use ghpulse.Range.{RangeWindow, bucket_seconds}
use ghpulse.Range.Parse.{HttpError, repository_not_found, out_of_range, parse_range}
use ghpulse.Dashboard.{EventRow, event_union, repository_predicate, select}

-- `SELECT MIN(event_at)`
unfoldable pub min_event : List EventRow → Option Time
min_event [] = none
min_event (e ∷ es) = elim (min_event es) [
  | none ↦ some e.event_at
  | some t ↦ some (min_ℤ e.event_at t)
]

unfoldable pub event_bounds : Database → Option String → Option Time
event_bounds db repository = min_event (select (repository_predicate repository) (event_union db))

-- The first moment of the year 1.
abbrev pub min_datetime : Time
min_datetime = negsuc 62135596799999999

-- `end - delta`, which raises before the year 1
unfoldable pub subtract : Time → ℤ → Result HttpError Time
subtract stop delta =
    let start = stop -ℤ delta in if ltb_ℤ start min_datetime then err out_of_range else ok start

abbrev pub all_window : String → Time → ℤ → Option Time → RangeWindow
all_window rng stop delta none = record {
  name = rng;
  start = stop;
  stop = stop;
  bucket_s = bucket_seconds delta;
}
all_window rng stop delta (some start) = record {
  name = rng;
  start = start;
  stop = stop;
  bucket_s = bucket_seconds (stop -ℤ start);
}

unfoldable pub build_window :
    (parsed_at now : Time) → Database → String → Option String → Result HttpError RangeWindow
build_window parsed_at now db rng repository = parse_range parsed_at rng >>= λ delta.
    if str_eq rng "all"
    then ok (all_window rng now delta (event_bounds db repository))
    else subtract now delta >>= λ start.
        ok (record { name = rng; start = start; stop = now; bucket_s = bucket_seconds delta })

-- A repository that the database has as public and external.
abbrev pub is_public_external : Option RepositoryRow → Bool
is_public_external none = false
is_public_external (some r) = not r.is_private && r.is_external

unfoldable pub validate_repository : Database → Option String → Result HttpError (Unit {0})
validate_repository db none = ok tt
validate_repository db (some repository) =
    raise_if (not (is_public_external (lookup repository db.repositories))) repository_not_found
