-- ===== src/Lifespan/Tests.antt =====
-- backend/app.py: a lifespan whose schema check fails, one that has an ingest under way, and one that
-- fails before its scheduler starts.
use ghpulse.Prelude.{true, false, ◌≡◌, refl}
use ghpulse.Lifespan.{
  App, loaded, is_ready, advance, enter, begin_shutdown, advances, enters, Reach, here, next,
}
use ghpulse.Lifespan.Pools.{Reach-uses_pools}
use ghpulse.Lifespan.Shutdown.{is_stranded, EndsAs, Reach-ends}

abbrev looping : App
looping = advance false (advance false (advance false (advance false loaded)))

looping_reached : Reach loaded looping
unfolding advance is_ready
looping_reached =
    next (next (next (next here (advances false refl)) (advances false refl)) (advances false refl))
      (advances false refl)

abbrev serving_app : App
serving_app = advance false (advance false (advance false looping))

serving_reached : Reach loaded serving_app
unfolding advance is_ready
serving_reached =
    next (next (next looping_reached (advances false refl)) (advances false refl))
      (advances false refl)

-- The scheduler is made, and adding a job fails.
abbrev unstarted : App
unstarted = advance true (advance false looping)

unstarted_reached : Reach loaded unstarted
unfolding advance is_ready
unstarted_reached = next (next looping_reached (advances false refl)) (advances true refl)

unstarted_strands : is_stranded unstarted ≡ true
unfolding advance
unstarted_strands = refl

abbrev ingesting : App
ingesting = record serving_app { owner = (enter serving_app.owner).1 }

ingesting_reached : Reach loaded ingesting
unfolding advance
ingesting_reached = next serving_reached (enters refl)

-- The schema check fails, and the `finally` block runs to its end.
abbrev failed : App
failed = advance true (advance false loaded)

abbrev ended_app : App
ended_app = advance false (
    advance false (
      advance false
        (advance false (advance false (advance false (advance false (advance false failed)))))))

failed_reached : Reach loaded failed
unfolding advance is_ready
failed_reached = next (next here (advances false refl)) (advances true refl)

ended_reached : Reach loaded ended_app
unfolding advance is_ready begin_shutdown
ended_reached =
    next
      (next
        (next
          (next
            (next
              (next (next (next failed_reached (advances false refl)) (advances false refl))
                (advances false refl))
              (advances false refl))
            (advances false refl))
          (advances false refl))
        (advances false refl))
      (advances false refl)

Reach-uses_pools_example : (ended_app.owner.active ≡ 0) × (ended_app.refreshes ≡ 0)
unfolding advance begin_shutdown
Reach-uses_pools_example = Reach-uses_pools ended_reached refl

ingesting_goes_on : is_stranded ingesting ≡ false
unfolding advance enter
ingesting_goes_on = refl

Reach-ends_example : (last : App) × Reach unstarted last × EndsAs (is_stranded unstarted) last
Reach-ends_example = Reach-ends unstarted_reached
