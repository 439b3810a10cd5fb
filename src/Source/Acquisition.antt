-- ===== src/Source/Acquisition.antt =====
-- backend/github_source.py under backend/ingest.py: acquisition with the public boundary and without.
use ghpulse.Prelude.{
  String, Bool, true, not, ◌≡◌, ◌↔◌, refl, ◌⊎◌, inl, inr, Option, none, some, str_eq, Result, ok,
  err, ◌>>=◌, ◌>>◌, raise_if, >>=-eq-ok,
}
use ghpulse.Snapshot.{
  Value, null, bool, int, float, str, arr, obj, Error, account_mismatch, Snapshot, TextRules,
}
use ghpulse.Snapshot.Validate.{validate_snapshot}
use ghpulse.Ingest.Run.{
  Fetched, fetched, raised, Environment, from_source, configured_credentials, acquire,
}
use ghpulse.Source.{BoundaryError, validate_public_boundary, from_vendor, Vendor, fetch_snapshot}
use ghpulse.Source.Boundary.{validate_snapshot-passes}

-- The vendored module's answer, with no check of its own.
abbrev pub unchecked : Option Value → Fetched
unchecked none = raised
unchecked (some v) = fetched v

Result-cases {ℓ κ} :
    {E : Type ℓ} {A : Type κ} (r : Result E A) → ((e : E) × (r ≡ err e)) ⊎ ((a : A) × (r ≡ ok a))
Result-cases (err e) = inl (e, refl)
Result-cases (ok a) = inr (a, refl)

module _ (rules : TextRules) (float_is_one : String → Bool) where
  abbrev boundary : Value → Result BoundaryError Value
  boundary = validate_public_boundary rules.casefold float_is_one

  boundary_same : (v v' : Value) → boundary v ≡ ok v' → v ≡ v'
  unfolding validate_public_boundary
  boundary_same (obj body) v' h = let (_, _, e) = >>=-eq-ok _ _ h in cc e
  boundary_same null v' h = cc h
  boundary_same (bool b) v' h = cc h
  boundary_same (int n) v' h = cc h
  boundary_same (float s) v' h = cc h
  boundary_same (str s) v' h = cc h
  boundary_same (arr xs) v' h = cc h

  -- What follows the call of the source.
  module _ (login : String) where
    abbrev accept : Value → Result Error Snapshot
    accept v = do
      s ← validate_snapshot rules v
      raise_if (not (str_eq (rules.casefold s.login) (rules.casefold login))) account_mismatch
      ok s

    accepted_passes : (v : Value) (s : Snapshot) → accept v ≡ ok s → boundary v ≡ ok v
    accepted_passes v s h =
        let (s', valid, _) = >>=-eq-ok _ _ h in
        validate_snapshot-passes rules float_is_one v s' valid

    checked_iff :
        (answer : Option Value) (s : Snapshot)
        → ((from_source (from_vendor boundary answer) >>= accept) ≡ ok s)
          ↔ ((from_source (unchecked answer) >>= accept) ≡ ok s)
    unfolding from_source ◌>>=◌
    checked_iff none s = (λ h. h, λ h. h)
    checked_iff (some v) s = elim (Result-cases (boundary v)) [
      | inl (e, refused) ↦ rw refused (λ h. cc h, λ h. cc (accepted_passes v s h, refused))
      | inr (v', passed) ↦ rw (passed, boundary_same v v' passed) (λ h. h, λ h. h)
    ]

module _ (env : Environment) (vendor : Vendor) (float_is_one : String → Bool) where
  -- The environment whose source is the adapter, and the one whose source is the vendored module.
  abbrev pub adapted : Environment
  adapted = record env { fetch = fetch_snapshot env.rules.casefold float_is_one vendor }

  abbrev pub direct : Environment
  direct = record env {
    fetch = λ token login. unchecked (vendor.fetch_authored_snapshot token login);
  }

  -- In production, where no fixture is set, a run acquires a snapshot through the public boundary
  -- exactly if it would acquire the same snapshot without it.
  pub acquire-fetch_snapshot :
      (s : Snapshot)
      → str_eq vendor.fixture "" ≡ true
      → (acquire adapted ≡ ok s) ↔ (acquire direct ≡ ok s)
  unfolding acquire fetch_snapshot ◌>>=◌
  acquire-fetch_snapshot s production = elim (Result-cases (configured_credentials env.variable)) [
    | inl (e, missing) ↦ rw missing (λ h. h, λ h. h)
    | inr (credentials, found) ↦
        rw (found, production)
          (checked_iff env.rules float_is_one credentials.1
            (vendor.fetch_authored_snapshot credentials.0 credentials.1) s)
  ]
