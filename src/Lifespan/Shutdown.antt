-- ===== src/Lifespan/Shutdown.antt =====
-- backend/app.py: every lifespan can be brought to its end, and what it leaves there.
use ghpulse.Prelude.{
  ℕ, zero, suc, ◌+◌, ◌-◌, ◌<◌, Bool, true, false, ◌&&◌, ◌≡◌, refl, ap, ◌∙◌, ◌⊎◌, inl, inr, leb,
  arith, Bool-cases,
}
use ghpulse.Lifespan.{
  leave, begin_shutdown, Stage, opening_pools, checking_schema, starting_refreshes, setting_loop,
  creating_scheduler, adding_jobs, starting_scheduler, serving, signalling, refusing,
  stopping_scheduler, draining_ingests, clearing_loop, refusing_refreshes, draining_refreshes,
  closing_pools, ended, interrupted, App, loaded, is_ready, is_unstarted, advance, Step, advances,
  leaves, refreshed, Reach, here, next,
}
use ghpulse.Lifespan.Pools.{position, Inv, Reach-Inv}

-- The actions that are left at most, and with them the ingests and refreshes.
abbrev left : Stage → ℕ
left interrupted = 0
left s = 17 - position s

abbrev remaining : App → ℕ
remaining app = left app.stage + app.owner.active + app.refreshes

-- The startup has failed between the scheduler's creation and its start, and the `finally` block is
-- under way, or has raised for it.
abbrev pub is_stranded : App → Bool
is_stranded app = is_unstarted app && leb 8 (position app.stage)

Progress : App → Type 0
Progress app =
    (after : App) × Step app after
    × (remaining after < remaining app)
    × (is_stranded after ≡ is_stranded app)

ℕ-cases : (n : ℕ) → (n ≡ 0) ⊎ (0 < n)
ℕ-cases zero = inl refl
ℕ-cases (suc n) = inr (omega arith)

by_advance :
    (app : App)
    → is_ready app ≡ true
    → remaining (advance false app) < remaining app
    → is_stranded (advance false app) ≡ is_stranded app
    → Progress app
unfolding Progress
by_advance app ready h kept = (_, advances false ready, h, kept)

abbrev IsOver : App → Type 0
IsOver app = (app.stage ≡ ended) ⊎ (app.stage ≡ interrupted)

stage_progress : (app : App) → Inv app → (s : Stage) → app.stage ≡ s → IsOver app ⊎ Progress app
unfolding Progress advance is_ready leave begin_shutdown
stage_progress app v opening_pools e = inr (
    by_advance app (rw e refl) (ground (arith, e, ap position e))
      (ground (arith, v, e, ap position e)))
stage_progress app v checking_schema e = inr (
    by_advance app (rw e refl) (ground (arith, e, ap position e))
      (ground (arith, v, e, ap position e)))
stage_progress app v starting_refreshes e = inr (
    by_advance app (rw e refl) (ground (arith, e, ap position e))
      (ground (arith, v, e, ap position e)))
stage_progress app v setting_loop e = inr (
    by_advance app (rw e refl) (ground (arith, e, ap position e))
      (ground (arith, v, e, ap position e)))
stage_progress app v creating_scheduler e = inr (
    by_advance app (rw e refl) (ground (arith, e, ap position e))
      (ground (arith, v, e, ap position e)))
stage_progress app v adding_jobs e = inr (
    by_advance app (rw e refl) (ground (arith, e, ap position e))
      (ground (arith, v, e, ap position e)))
stage_progress app v starting_scheduler e = inr (
    by_advance app (rw e refl) (ground (arith, e, ap position e))
      (ground (arith, v, e, ap position e)))
stage_progress app v serving e = inr (
    by_advance app (rw e refl) (ground (arith, e, ap position e))
      (ground (arith, v, e, ap position e)))
stage_progress app v signalling e = inr (
    by_advance app (rw e refl) (ground (arith, e, ap position e))
      (ground (arith, v, e, ap position e)))
stage_progress app v refusing e = inr (
    by_advance app (rw e refl) (ground (arith, e, ap position e))
      (ground (arith, v, e, ap position e)))
stage_progress app v stopping_scheduler e = elim (Bool-cases (is_unstarted app)) [
  | inl u ↦ inr (
      by_advance app (rw e refl) (ground (arith, e, u, ap position e))
        (ground (arith, v, e, u, ap position e)))
  | inr u ↦ inr (
      by_advance app (rw e refl) (ground (arith, e, u, ap position e))
        (ground (arith, v, e, u, ap position e)))
]
stage_progress app v draining_ingests e = elim (ℕ-cases app.owner.active) [
  | inl z ↦ inr (
      by_advance app (rw e (ground (arith, z))) (ground (arith, e, ap position e, z))
        (ground (arith, v, e, ap position e)))
  | inr busy ↦ inr (_, leaves busy, (ground (arith, busy)), refl)
]
stage_progress app v clearing_loop e = inr (
    by_advance app (rw e refl) (ground (arith, e, ap position e))
      (ground (arith, v, e, ap position e)))
stage_progress app v refusing_refreshes e = inr (
    by_advance app (rw e refl) (ground (arith, e, ap position e))
      (ground (arith, v, e, ap position e)))
stage_progress app v draining_refreshes e = elim (ℕ-cases app.refreshes) [
  | inl z ↦ inr (
      by_advance app (rw e (ground (arith, z))) (ground (arith, e, ap position e, z))
        (ground (arith, v, e, ap position e)))
  | inr busy ↦ inr (_, refreshed busy, (ground (arith, busy)), refl)
]
stage_progress app v closing_pools e = inr (
    by_advance app (rw e refl) (ground (arith, e, ap position e))
      (ground (arith, v, e, ap position e)))
stage_progress app v ended e = inl (inl e)
stage_progress app v interrupted e = inl (inr e)

end_from :
    (fuel : ℕ) {from app : App}
    → Reach loaded app
    → remaining app < fuel
    → Reach from app
    → (last : App) × Reach loaded last
      × Reach from last
      × IsOver last
      × (is_stranded last ≡ is_stranded app)
unfolding Progress
end_from zero root h r = absurd (omega arith)
end_from (suc fuel) {from} {app} root h r =
    elim (stage_progress app (Reach-Inv root) app.stage refl) [
      | inl over ↦ (app, root, r, over, refl)
      | inr (after, st, less, kept) ↦
          let (last, root', r', over, kept') =
            end_from fuel (next root st) (omega arith) (next r st) in
          (last, root', r', over, kept' ∙ kept)
    ]

-- What a lifespan leaves behind at its end.
abbrev pub IsReleased : App → Type 0
IsReleased app =
    (app.stage ≡ ended)
    × (app.pools_open ≡ false)
    × (app.loop_set ≡ false)
    × (app.shutdown_set ≡ false)
    × (app.accepting ≡ false)
    × (app.owner.closing ≡ true)
    × (app.owner.active ≡ 0)
    × (app.refreshes ≡ 0)

-- What one leaves whose `finally` block raises.
abbrev pub IsLeaked : App → Type 0
IsLeaked app =
    (app.stage ≡ interrupted)
    × (app.pools_open ≡ true)
    × (app.loop_set ≡ true)
    × (app.owner.closing ≡ true)
    × (app.owner.active ≡ 0)
    × (app.refreshes ≡ 0)

abbrev pub EndsAs : (stranded : Bool) → App → Type 0
EndsAs true last = IsLeaked last
EndsAs false last = IsReleased last

over-EndsAs :
    {app : App} (stranded : Bool)
    → Inv app
    → IsOver app
    → is_stranded app ≡ stranded
    → EndsAs stranded app
over-EndsAs true v (inl e) s = absurd (ground (arith, v, e, ap position e))
over-EndsAs true v (inr e) s = ground (arith, v, e, ap position e)
over-EndsAs false v (inl e) s = ground (arith, v, e, ap position e)
over-EndsAs false v (inr e) s = absurd (ground (arith, v, e, ap position e))

-- From every state that a process reaches, with any ingests and refreshes under way, some steps
-- lead to an end. If the startup has failed between the making of the scheduler and its start,
-- the shutdown of the scheduler raises there, and the pools are left open and the loop set. In
-- every other case the lifespan ends with the pools closed, the loop and its shutdown mark
-- cleared, refreshes refused and the coordinator closing. No ingest and no refresh is left in
-- either.
pub Reach-ends :
    {app : App} → Reach loaded app → (last : App) × Reach app last × EndsAs (is_stranded app) last
Reach-ends {app} r =
    let (last, root, after, over, kept) = end_from (suc (remaining app)) r (omega arith) here in
    (last, after, over-EndsAs (is_stranded app) (Reach-Inv root) over kept)
