-- ===== src/Snapshot/Require/Inverse.antt =====
-- backend/ingest.py, the `_require_…` helpers: what a value that passes one is.
use ghpulse.Prelude.{String, Bool, ◌≡◌, some, str_eq, Bool-cases, Option-cases, inl, inr, ok}
use ghpulse.Snapshot.{Value, null, bool, int, float, str, arr, obj, Items, Fields, find}
use ghpulse.Snapshot.Require.{get_field, require_dict, require_list, require_string, require_bool}

pub get_field-eq-ok :
    (k : String) (fs : Fields) {v : Value} → get_field k fs ≡ ok v → find k fs ≡ some v
unfolding get_field
get_field-eq-ok k fs h = elim (Option-cases (find k fs)) [
  | inl e ↦ cc (simp (get_field, e) at h)
  | inr (w, e) ↦ cc (e, simp (get_field, e) at h)
]

pub require_dict-eq-ok : (v : Value) {fs : Fields} → require_dict v ≡ ok fs → v ≡ obj fs
unfolding require_dict
require_dict-eq-ok (obj fs) h = cc h
require_dict-eq-ok null h = cc h
require_dict-eq-ok (bool b) h = cc h
require_dict-eq-ok (int n) h = cc h
require_dict-eq-ok (float s) h = cc h
require_dict-eq-ok (str s) h = cc h
require_dict-eq-ok (arr xs) h = cc h

pub require_list-eq-ok : (v : Value) {xs : Items} → require_list v ≡ ok xs → v ≡ arr xs
unfolding require_list
require_list-eq-ok (arr xs) h = cc h
require_list-eq-ok null h = cc h
require_list-eq-ok (bool b) h = cc h
require_list-eq-ok (int n) h = cc h
require_list-eq-ok (float s) h = cc h
require_list-eq-ok (str s) h = cc h
require_list-eq-ok (obj fs) h = cc h

pub require_bool-eq-ok : (v : Value) {b : Bool} → require_bool v ≡ ok b → v ≡ bool b
unfolding require_bool
require_bool-eq-ok (bool b) h = cc h
require_bool-eq-ok null h = cc h
require_bool-eq-ok (int n) h = cc h
require_bool-eq-ok (float s) h = cc h
require_bool-eq-ok (str s) h = cc h
require_bool-eq-ok (arr xs) h = cc h
require_bool-eq-ok (obj fs) h = cc h

pub require_string-eq-ok : (v : Value) {s : String} → require_string v ≡ ok s → v ≡ str s
unfolding require_string
require_string-eq-ok (str s) h = elim (Bool-cases (str_eq s "")) [
  | inl e ↦ cc (simp e at h)
  | inr e ↦ cc (simp e at h)
]
require_string-eq-ok null h = cc h
require_string-eq-ok (bool b) h = cc h
require_string-eq-ok (int n) h = cc h
require_string-eq-ok (float s) h = cc h
require_string-eq-ok (arr xs) h = cc h
require_string-eq-ok (obj fs) h = cc h
