-- ===== src/Range/Width.antt =====
-- backend/api_common.py, `_bucket_seconds`: the width against the candidates.
use ghpulse.Prelude.{ℕ, ◌*◌, ◌≤◌, ◌<◌, ◌≡◌, ◌⊎◌, All}
use ghpulse.Range.{bucket_candidates}

-- A wider candidate gives fewer than a hundred buckets.
abbrev pub IsLargest : ℕ → ℕ → Type 0
IsLargest span width =
    ((width ≡ 60) ⊎ (width * 100 ≤ span))
    × All (λ candidate. width < candidate → span < candidate * 100) bucket_candidates
