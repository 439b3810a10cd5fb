-- ===== src/Lifespan/Pools.antt =====
-- backend/app.py: no ingest and no refresh runs without the pools.
use ghpulse.Prelude.{ℕ, ◌≤◌, Bool, true, false, ◌≡◌, refl, ap, arith}
use ghpulse.Lifespan.{
  enter, leave, begin_shutdown, Stage, opening_pools, checking_schema, starting_refreshes,
  setting_loop, creating_scheduler, adding_jobs, starting_scheduler, serving, signalling, refusing,
  stopping_scheduler, draining_ingests, clearing_loop, refusing_refreshes, draining_refreshes,
  closing_pools, ended, interrupted, App, loaded, is_ready, is_unstarted, perform, advance, submit,
  Step, advances, enters, leaves, submits, refreshed, Reach, here, next,
}

-- How far a stage is, in the order of the source.
abbrev pub position : Stage → ℕ
position opening_pools = 0
position checking_schema = 1
position starting_refreshes = 2
position setting_loop = 3
position creating_scheduler = 4
position adding_jobs = 5
position starting_scheduler = 6
position serving = 7
position signalling = 8
position refusing = 9
position stopping_scheduler = 10
position draining_ingests = 11
position clearing_loop = 12
position refusing_refreshes = 13
position draining_refreshes = 14
position closing_pools = 15
position ended = 16
position interrupted = 10

pub record Inv (app : App) : Type 0 where
  pub opened : app.scheduled ≡ true → position app.stage ≤ 15 → app.pools_open ≡ true
  pub started : 1 ≤ position app.stage → position app.stage ≤ 7 → app.pools_open ≡ true
  pub quiet_before : app.scheduled ≡ false → (app.owner.active ≡ 0) × (app.refreshes ≡ 0)
  pub refused : 10 ≤ position app.stage → app.owner.closing ≡ true
  pub drained : 12 ≤ position app.stage → app.owner.active ≡ 0
  pub refreshes_refused : 14 ≤ position app.stage → app.accepting ≡ false
  pub refreshes_drained : 15 ≤ position app.stage → app.refreshes ≡ 0
  pub loop_cleared : 13 ≤ position app.stage → (app.loop_set ≡ false) × (app.shutdown_set ≡ false)
  pub closed : 16 ≤ position app.stage → app.pools_open ≡ false
  pub not_yet : position app.stage ≤ 6 → app.scheduled ≡ false
  pub serves : position app.stage ≡ 7 → app.scheduled ≡ true
  pub loop_known : 4 ≤ position app.stage → position app.stage ≤ 7 → app.loop_set ≡ true
  pub made_open :
      app.scheduler_made ≡ true
      → position app.stage ≤ 11
      → (app.pools_open ≡ true) × (app.loop_set ≡ true)
  pub made_last : position app.stage ≤ 4 → app.scheduler_made ≡ false
  pub stopped : 11 ≤ position app.stage → is_unstarted app ≡ false
  pub cut : app.stage ≡ interrupted → is_unstarted app ≡ true

loaded-Inv : Inv loaded
loaded-Inv = ground arith

perform-Inv :
    (raises : Bool) (s : Stage) (app : App)
    → app.stage ≡ s
    → is_ready app ≡ true
    → Inv app
    → Inv (perform s raises app)
unfolding is_ready begin_shutdown
perform-Inv true opening_pools app e h v = ground (arith, ap position e)
perform-Inv false opening_pools app e h v = ground (arith, ap position e)
perform-Inv true checking_schema app e h v = ground (arith, ap position e)
perform-Inv false checking_schema app e h v = ground (arith, ap position e)
perform-Inv raises starting_refreshes app e h v = ground (arith, ap position e)
perform-Inv raises setting_loop app e h v = ground (arith, ap position e)
perform-Inv true creating_scheduler app e h v = ground (arith, ap position e)
perform-Inv false creating_scheduler app e h v = ground (arith, ap position e)
perform-Inv true adding_jobs app e h v = ground (arith, ap position e)
perform-Inv false adding_jobs app e h v = ground (arith, ap position e)
perform-Inv true starting_scheduler app e h v = ground (arith, ap position e)
perform-Inv false starting_scheduler app e h v = ground (arith, ap position e)
perform-Inv raises serving app e h v = ground (arith, ap position e)
perform-Inv raises signalling app e h v = ground (arith, ap position e)
perform-Inv raises refusing app e h v = ground (arith, ap position e)
perform-Inv raises stopping_scheduler app e h v = ground (arith, ap position e)
perform-Inv raises draining_ingests app e h v = ground (arith, ap position e)
perform-Inv raises clearing_loop app e h v = ground (arith, ap position e)
perform-Inv raises refusing_refreshes app e h v = ground (arith, ap position e)
perform-Inv raises draining_refreshes app e h v = ground (arith, ap position e)
perform-Inv raises closing_pools app e h v = ground (arith, ap position e)
perform-Inv raises ended app e h v = ground (arith, ap position e)
perform-Inv raises interrupted app e h v = ground (arith, ap position e)

Step-Inv : {a b : App} → Step a b → Inv a → Inv b
unfolding enter leave submit advance
Step-Inv {a} (advances raises h) v = perform-Inv raises a.stage a refl h v
Step-Inv (enters h) v = ground arith
Step-Inv (leaves h) v = ground arith
Step-Inv (submits h) v = ground arith
Step-Inv (refreshed h) v = ground arith

pub Reach-Inv : {app : App} → Reach loaded app → Inv app
Reach-Inv here = loaded-Inv
Reach-Inv (next r st) = Step-Inv st (Reach-Inv r)

-- In every state that a process reaches from its start, through startup and shutdown, with actions
-- of the startup failing or not: while the pools are not open, no admitted ingest is active and no
-- accepted refresh is left.
pub Reach-uses_pools :
    {app : App}
    → Reach loaded app
    → app.pools_open ≡ false
    → (app.owner.active ≡ 0) × (app.refreshes ≡ 0)
Reach-uses_pools r closed = ground (arith, Reach-Inv r)
