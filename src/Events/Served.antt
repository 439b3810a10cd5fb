-- ===== src/Events/Served.antt =====
-- backend/events.py: every queue that a process reaches is served, and every number that is not given
-- out yet is unused.
use ghpulse.Prelude.{
  ℕ, ◌+◌, ◌≤◌, String, Bool, true, false, not, ◌||◌, ◌≡◌, refl, ap, ◌∙◌, List, ◌∷◌, ◌==◌, ==_iff,
  arith, Bool-cases, inl, inr,
}
use ghpulse.Events.{
  Callback, put_all, set_event, Stream, Bus, loaded, set_loop, clear_loop, signal_shutdown,
  subscribe, unsubscribe, broadcast, call, take_message, deliver, abandon, Step, sets_loop,
  clears_loop, closes_loop, signals, connects, broadcasts, runs, takes, delivers, ends, abandons,
  Reach, start, next,
}
use ghpulse.Events.Order.{nothing}
use ghpulse.Events.Delivery.{
  is_running, IsServed, IsUnused, pending-append, broadcast-IsServed, signal_shutdown-IsServed,
  subscribe-IsServed, unsubscribe-IsServed, call-IsServed, take_message-IsServed, deliver-IsServed,
  abandon-IsServed,
}

-- The same numbers stay unused where no history and no subscription is touched.
module _ (bus : Bus) (q : ℕ) (u : IsUnused q bus) where
  broadcast-IsUnused : (raced : Bool) (payload : String) → IsUnused q (broadcast raced payload bus)
  unfolding broadcast
  broadcast-IsUnused raced payload =
      elim (Bool-cases (not bus.loop_set || (bus.loop_closed || raced))) [
        | inl e ↦ rw e u
        | inr e ↦ rw e record {
          silent = u.silent;
          idle = rw (pending-append, u.unsubscribed, u.idle) refl;
          unsent = rw u.unsubscribed u.unsent;
          undropped = u.undropped;
          unsubscribed = u.unsubscribed;
        }
      ]

  signal_shutdown-IsUnused : (raced : Bool) → IsUnused q (signal_shutdown raced bus)
  unfolding signal_shutdown
  signal_shutdown-IsUnused raced =
      elim (Bool-cases (not bus.event_known || (not bus.loop_set || (bus.loop_closed || raced)))) [
        | inl e ↦ rw e u
        | inr e ↦ rw e record {
          silent = u.silent;
          idle = rw (pending-append, u.idle) refl;
          unsent = u.unsent;
          undropped = u.undropped;
          unsubscribed = u.unsubscribed;
        }
      ]

  subscribe-IsUnused : bus.next_queue + 1 ≤ q → IsUnused q (subscribe bus)
  unfolding subscribe
  subscribe-IsUnused later =
      let other : (bus.next_queue == q) ≡ false = ground arith in
      record {
        silent = u.silent;
        idle = u.idle;
        unsent = u.unsent;
        undropped = u.undropped;
        unsubscribed = rw other u.unsubscribed;
      }

  unsubscribe-IsUnused : (p : ℕ) → IsUnused q (unsubscribe p bus)
  unfolding unsubscribe
  unsubscribe-IsUnused p = record {
    silent = u.silent;
    idle = u.idle;
    unsent = u.unsent;
    undropped = u.undropped;
    unsubscribed = rw u.unsubscribed (ground arith);
  }

  call-IsUnused :
      (c : Callback) (cs : List Callback)
      → bus.callbacks ≡ c ∷ cs
      → IsUnused q (call c (record bus { callbacks = cs }))
  call-IsUnused set_event cs e = record {
    silent = u.silent;
    idle = (rw e at u.idle);
    unsent = u.unsent;
    undropped = u.undropped;
    unsubscribed = u.unsubscribed;
  }
  call-IsUnused (put_all payload targets) cs e = elim (Bool-cases (targets q)) [
    | inl t ↦ cc (rw (e, t) at u.idle)
    | inr t ↦ record {
      silent = u.silent;
      idle = (rw (e, t) at u.idle);
      unsent = u.unsent;
      undropped = rw t u.undropped;
      unsubscribed = u.unsubscribed;
    }
  ]

  module _ (p : ℕ) (live : bus.subscribers p ≡ true) where
    other : (p == q) ≡ false
    other = elim (Bool-cases (p == q)) [
      | inl e ↦ let same = ap bus.subscribers ((==_iff p q).0 e) in cc (live, same, u.unsubscribed)
      | inr e ↦ e
    ]

    deliver-IsUnused :
        (watches : Bool) (payload : String) → IsUnused q (deliver p watches payload bus)
    unfolding deliver
    deliver-IsUnused watches payload = record {
      silent = rw other u.silent;
      idle = u.idle;
      unsent = u.unsent;
      undropped = u.undropped;
      unsubscribed = u.unsubscribed;
    }

    abandon-IsUnused : IsUnused q (abandon p bus)
    unfolding abandon unsubscribe
    abandon-IsUnused = record {
      silent = u.silent;
      idle = u.idle;
      unsent = u.unsent;
      undropped = rw other u.undropped;
      unsubscribed = rw other u.unsubscribed;
    }

-- Every queue is served, and every number that is not given out yet is unused.
record IsServing (bus : Bus) : Type 0 where
  pub each : (q : ℕ) → IsServed q bus
  pub later : (q : ℕ) → bus.next_queue ≤ q → IsUnused q bus

-- A stream on its way is subscribed.
subscribed_stream :
    (bus : Bus) (p : ℕ) (stream : Stream)
    → IsServing bus
    → is_running stream ≡ true
    → bus.streams p ≡ stream
    → bus.subscribers p ≡ true
subscribed_stream bus p stream i is_on r = (i.each p).subscribed ∙ ap is_running r ∙ is_on

-- A number stays unused where these five things stay.
as_before :
    {q : ℕ} {bus : Bus} {loop_set loop_closed event_known event_set : Bool} {next_queue : ℕ}
    {queues : ℕ → List String} {streams : ℕ → Stream}
    → IsUnused q bus
    → IsUnused q (record bus {
      loop_set = loop_set;
      loop_closed = loop_closed;
      event_known = event_known;
      event_set = event_set;
      next_queue = next_queue;
      queues = queues;
      streams = streams;
    })
as_before u = record {
  silent = u.silent;
  idle = u.idle;
  unsent = u.unsent;
  undropped = u.undropped;
  unsubscribed = u.unsubscribed;
}

-- The flags of the loop and of the event.
abbrev with_flags : Bus → Bool → Bool → Bool → Bool → Bus
with_flags bus a b c d = record bus {
  loop_set = a;
  loop_closed = b;
  event_known = c;
  event_set = d;
}

with_flags-IsServing :
    (bus : Bus) (a b c d : Bool) → IsServing bus → IsServing (with_flags bus a b c d)
with_flags-IsServing bus a b c d i = record {
  each = λ q.
      let s = i.each q in
      record { in_order = s.in_order; bounded = s.bounded; subscribed = s.subscribed };
  later = λ q h. as_before (i.later q h);
}

next_queue-broadcast :
    (raced : Bool) (payload : String) (bus : Bus)
    → (broadcast raced payload bus).next_queue ≡ bus.next_queue
unfolding broadcast
next_queue-broadcast raced payload bus =
    elim (Bool-cases (not bus.loop_set || (bus.loop_closed || raced))) [
      | inl e ↦ rw e refl
      | inr e ↦ rw e refl
    ]

next_queue-signal_shutdown :
    (raced : Bool) (bus : Bus) → (signal_shutdown raced bus).next_queue ≡ bus.next_queue
unfolding signal_shutdown
next_queue-signal_shutdown raced bus =
    elim (Bool-cases (not bus.event_known || (not bus.loop_set || (bus.loop_closed || raced)))) [
      | inl e ↦ rw e refl
      | inr e ↦ rw e refl
    ]

next_queue-call : (c : Callback) (bus : Bus) → (call c bus).next_queue ≡ bus.next_queue
next_queue-call set_event bus = refl
next_queue-call (put_all payload targets) bus = refl

Step-IsServing : {a b : Bus} → IsServing a → Step a b → IsServing b
unfolding set_loop clear_loop
Step-IsServing {a} i sets_loop = with_flags-IsServing a true a.loop_closed true false i
Step-IsServing {a} i clears_loop = with_flags-IsServing a false a.loop_closed false a.event_set i
Step-IsServing {a} i closes_loop =
    with_flags-IsServing a a.loop_set true a.event_known a.event_set i
Step-IsServing {a} i (signals raced) = record {
  each = λ q. signal_shutdown-IsServed raced a q (i.each q);
  later =
      λ q h. signal_shutdown-IsUnused a q (i.later q (rw next_queue-signal_shutdown at h)) raced;
}
Step-IsServing {a} i connects = record {
  each = λ q. subscribe-IsServed a q (i.each q) (i.later q);
  later = λ q h. unfold subscribe in subscribe-IsUnused a q (i.later q (omega arith)) h;
}
Step-IsServing {a} i (broadcasts raced payload) = record {
  each = λ q. broadcast-IsServed raced payload a q (i.each q);
  later = λ q h. broadcast-IsUnused a q (i.later q (rw next_queue-broadcast at h)) raced payload;
}
Step-IsServing {a} i (runs c cs e) = record {
  each = λ q. call-IsServed a q (i.each q) cs c e;
  later = λ q h. call-IsUnused a q (i.later q (rw next_queue-call at h)) c cs e;
}
Step-IsServing {a} i (takes p watches payload rest r waits) = record {
  each = λ q. take_message-IsServed a q (i.each q) p watches payload rest r waits;
  later = λ q h. unfold take_message in as_before (i.later q h);
}
Step-IsServing {a} i (delivers p watches payload r quiet) = record {
  each = λ q. deliver-IsServed a q (i.each q) p watches payload r;
  later = λ q h.
      unfold deliver in
      deliver-IsUnused a q (i.later q h) p (subscribed_stream a p _ i refl r) watches payload;
}
Step-IsServing {a} i (ends p watches r) = record {
  each = λ q. unsubscribe-IsServed p watches a q r (i.each q);
  later = λ q h. unfold unsubscribe in unsubscribe-IsUnused a q (i.later q h) p;
}
Step-IsServing {a} i (abandons p watches payload r) = record {
  each = λ q. abandon-IsServed a q (i.each q) p watches payload r;
  later = λ q h.
      unfold abandon unsubscribe in
      abandon-IsUnused a q (i.later q h) p (subscribed_stream a p _ i refl r);
}

loaded-IsServing : IsServing loaded
loaded-IsServing = record {
  each = λ q. record { in_order = nothing; bounded = omega arith; subscribed = refl };
  later = λ q h. record {
    silent = refl;
    idle = refl;
    unsent = refl;
    undropped = refl;
    unsubscribed = refl;
  };
}

Reach-IsServing : {bus : Bus} → Reach bus → IsServing bus
Reach-IsServing start = loaded-IsServing
Reach-IsServing (next r step) = Step-IsServing (Reach-IsServing r) step

-- In every state that threads, the loop and the streams can reach, for every queue: what its
-- stream has yielded, the message the stream holds, what waits in the queue and what the loop has
-- still to put there are, in this order, the messages that were broadcast while it was
-- subscribed, less exactly as many as were counted as dropped; at most 16 messages wait; and the
-- queue is subscribed exactly while its stream runs.
pub Reach-IsServed : {bus : Bus} → Reach bus → (q : ℕ) → IsServed q bus
Reach-IsServed r q = (Reach-IsServing r).each q
