-- ===== src/Events/Tests.antt =====
-- backend/events.py: a browser that connects, two broadcasts, and the delivery of the first.
use ghpulse.Prelude.{false, true, refl, [], ◌∷◌}
use ghpulse.Events.{
  Bus, put_all, put_nowait, loaded, set_loop, subscribe, broadcast, call, take_message, deliver,
  sets_loop, connects, broadcasts, runs, takes, delivers, Reach, start, next,
}
use ghpulse.Events.Delivery.{IsServed}
use ghpulse.Events.Served.{Reach-IsServed}

abbrev connected : Bus
connected = subscribe (set_loop loaded)

abbrev told : Bus
told = broadcast false "again" (broadcast false "done" connected)

Reach-told : Reach told
Reach-told =
    next (next (next (next start sets_loop) connects) (broadcasts false "done"))
      (broadcasts false "again")

abbrev put : Bus
put =
    call (put_all "done" connected.subscribers)
      (record told { callbacks = put_all "again" connected.subscribers ∷ [] })

abbrev delivered : Bus
delivered = deliver 0 true "done" (take_message 0 true "done" [] put)

Reach-delivered : Reach delivered
unfolding broadcast subscribe set_loop put_nowait take_message
Reach-delivered =
    next
      (next
        (next Reach-told (
          runs (put_all "done" connected.subscribers) (put_all "again" connected.subscribers ∷ [])
            refl))
        (takes 0 true "done" [] refl refl))
      (delivers 0 true "done" refl refl)

Reach-IsServed_example : IsServed 0 delivered
Reach-IsServed_example = Reach-IsServed Reach-delivered 0
