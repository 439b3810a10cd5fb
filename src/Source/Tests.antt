-- ===== src/Source/Tests.antt =====
-- backend/github_source.py: the snapshot of Ingest/Tests through the boundary, and a private record.
use ghpulse.Prelude.{String, ◌≡◌, ◌↔◌, refl, Bool, false, none, some, ok, err, ◌>>=◌, raise_if}
use ghpulse.Snapshot.{obj, nil, cons, end, find}
use ghpulse.Source.{
  validate_public_boundary, check_record, check_records, record_not_public, Vendor,
}
use ghpulse.Source.Boundary.{validate_snapshot-passes}
use ghpulse.Source.Acquisition.{adapted, direct, acquire-fetch_snapshot}
use ghpulse.Ingest.Run.{acquire}
use ghpulse.Ingest.Tests.{plain, raw, accepted, raw-accepted}
use ghpulse.Ingest.Run.Tests.{online}

abbrev no_floats : String → Bool
no_floats s = false

-- Without its flag a record is refused.
no_flag : check_records (cons (obj end) nil) ≡ err record_not_public
unfolding check_records check_record raise_if find ◌>>=◌
no_flag = refl

validate_snapshot-passes_example : validate_public_boundary plain.casefold no_floats raw ≡ ok raw
validate_snapshot-passes_example =
    validate_snapshot-passes plain no_floats raw accepted raw-accepted

abbrev vendor : Vendor
vendor = record {
  fetch_authored_snapshot = λ token login. some raw;
  load_snapshot = λ path. none;
  fixture = "";
}

acquire-fetch_snapshot_example :
    (acquire (adapted online vendor no_floats) ≡ ok accepted)
    ↔ (acquire (direct online vendor no_floats) ≡ ok accepted)
acquire-fetch_snapshot_example = acquire-fetch_snapshot online vendor no_floats accepted refl
