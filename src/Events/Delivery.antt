-- ===== src/Events/Delivery.antt =====
-- backend/events.py: what each browser receives of the broadcasts.
use mathlib.Core.List.{append_assoc, append-nil}
use ghpulse.Prelude.{
  ℕ, suc, ◌+◌, ◌≤◌, String, Bool, true, false, not, ◌||◌, ◌≡◌, refl, sym, ap, ◌∙◌, List, [], ◌∷◌,
  ◌++◌, ◌==◌, ==_iff, ltb, length, length-append, if◌then◌else◌, arith, Bool-cases, inl, inr,
}
use ghpulse.Events.{
  max_size, Callback, put_all, set_event, Stream, running, holding, Bus, signal_shutdown, subscribe,
  unsubscribe, broadcast, put_nowait, call, take_message, deliver, abandon,
}
use ghpulse.Events.Order.{Without, nothing, Without-snoc, Removes-append, Without-Removes}

-- The messages for a queue that the loop has still to put there.
abbrev pub pending : ℕ → List Callback → List String
pending q [] = []
pending q (set_event ∷ cs) = pending q cs
pending q (put_all payload targets ∷ cs) =
    let rest = pending q cs in if targets q then payload ∷ rest else rest

abbrev pub in_hand : Stream → List String
in_hand (holding watches payload) = payload ∷ []
in_hand _ = []

-- What left the queue towards the browser.
abbrev pub taken : ℕ → Bus → List String
taken q bus = bus.received q ++ in_hand (bus.streams q)

-- All messages of a queue that are not dropped.
abbrev pub kept : ℕ → Bus → List String
kept q bus = taken q bus ++ (bus.queues q ++ pending q bus.callbacks)

abbrev pub is_running : Stream → Bool
is_running (running watches) = true
is_running (holding watches payload) = true
is_running _ = false

-- Of one queue: what the stream has yielded, the message it holds, what waits, and what the loop has to
-- put, are in order what was broadcast to it, less what was dropped; at most 16 wait; and it is
-- subscribed while it runs.
pub record IsServed (q : ℕ) (bus : Bus) : Type 0 where
  pub in_order : Without (bus.dropped q) (kept q bus) (bus.sent q)
  pub bounded : length (bus.queues q) ≤ max_size
  pub subscribed : bus.subscribers q ≡ is_running (bus.streams q)

-- A number that is not given out yet has no history.
pub record IsUnused (q : ℕ) (bus : Bus) : Type 0 where
  pub silent : bus.received q ≡ []
  pub idle : pending q bus.callbacks ≡ []
  pub unsent : bus.sent q ≡ []
  pub undropped : bus.dropped q ≡ 0
  pub unsubscribed : bus.subscribers q ≡ false

pub pending-append :
    (q : ℕ) (xs ys : List Callback) → pending q (xs ++ ys) ≡ pending q xs ++ pending q ys
pending-append q [] ys = refl
pending-append q (set_event ∷ cs) ys = pending-append q cs ys
pending-append q (put_all payload targets ∷ cs) ys = ground (arith, pending-append q cs ys)

-- A message at the end of three parts stands at the end of the last.
end_of :
    {n : ℕ} {sent : List String} (xs ys zs : List String) (payload : String)
    → Without n ((xs ++ (ys ++ zs)) ++ (payload ∷ [])) sent
    → Without n (xs ++ (ys ++ (zs ++ (payload ∷ [])))) sent
end_of xs ys zs payload w = rw (append_assoc xs _ _, append_assoc ys _ _) at w

pub broadcast-IsServed :
    (raced : Bool) (payload : String) (bus : Bus) (q : ℕ)
    → IsServed q bus
    → IsServed q (broadcast raced payload bus)
unfolding broadcast
broadcast-IsServed raced payload bus q s =
    elim (Bool-cases (not bus.loop_set || (bus.loop_closed || raced))) [
      | inl e ↦ rw e s
      | inr e ↦ elim (Bool-cases (bus.subscribers q)) [
        | inl f ↦ rw e record {
          in_order =
              rw (f, pending-append, f)
                (end_of (taken q bus) (bus.queues q) (pending q bus.callbacks) payload
                  (Without-snoc payload s.in_order));
          bounded = s.bounded;
          subscribed = s.subscribed;
        }
        | inr f ↦ rw e record {
          in_order = rw (f, pending-append, f, append-nil) s.in_order;
          bounded = s.bounded;
          subscribed = s.subscribed;
        }
      ]
    ]

pub signal_shutdown-IsServed :
    (raced : Bool) (bus : Bus) (q : ℕ) → IsServed q bus → IsServed q (signal_shutdown raced bus)
unfolding signal_shutdown
signal_shutdown-IsServed raced bus q s =
    elim (Bool-cases (not bus.event_known || (not bus.loop_set || (bus.loop_closed || raced)))) [
      | inl e ↦ rw e s
      | inr e ↦ rw e record {
        in_order = rw (pending-append, append-nil) s.in_order;
        bounded = s.bounded;
        subscribed = s.subscribed;
      }
    ]

pub subscribe-IsServed :
    (bus : Bus) (q : ℕ)
    → IsServed q bus
    → (bus.next_queue ≤ q → IsUnused q bus)
    → IsServed q (subscribe bus)
unfolding subscribe
subscribe-IsServed bus q s unused = elim (Bool-cases (bus.next_queue == q)) [
  | inl e ↦
      let u = unused (ground arith) in
      record {
        in_order = rw (e, u.silent, u.idle, u.unsent, u.undropped) nothing;
        bounded = rw e (omega arith);
        subscribed = rw e refl;
      }
  | inr e ↦ record {
    in_order = rw e s.in_order;
    bounded = rw e s.bounded;
    subscribed = rw e s.subscribed;
  }
]

pub unsubscribe-IsServed :
    (p : ℕ) (watches : Bool) (bus : Bus) (q : ℕ)
    → bus.streams p ≡ running watches
    → IsServed q bus
    → IsServed q (unsubscribe p bus)
unfolding unsubscribe
unsubscribe-IsServed p watches bus q waits s = elim (Bool-cases (p == q)) [
  | inl e ↦
      let same = ap bus.streams (sym ((==_iff p q).0 e)) ∙ waits in
      record {
        in_order = rw e (rw same at s.in_order);
        bounded = s.bounded;
        subscribed = rw e refl;
      }
  | inr e ↦ record {
    in_order = rw e s.in_order;
    bounded = s.bounded;
    subscribed = rw e s.subscribed;
  }
]

plus_one : (n : ℕ) → n + 1 ≡ suc n
plus_one n = omega arith

-- A message that goes out of the middle is one more that is missing.
gone :
    (n : ℕ) (front rest waiting sent : List String) (payload : String)
    → Without n (front ++ (rest ++ (payload ∷ waiting))) sent
    → Without (n + 1) (front ++ (rest ++ waiting)) sent
gone n front rest waiting sent payload w =
    rw (plus_one, ← append_assoc)
      (Without-Removes (rw (← append_assoc) at w) (Removes-append (front ++ rest) payload waiting))

module _ (bus : Bus) (q : ℕ) (s : IsServed q bus) (cs : List Callback) where
  put_all-IsServed :
      (payload : String) (targets : ℕ → Bool)
      → bus.callbacks ≡ put_all payload targets ∷ cs
      → IsServed q (call (put_all payload targets) (record bus { callbacks = cs }))
  unfolding put_nowait
  put_all-IsServed payload targets e = elim (Bool-cases (targets q)) [
    | inl t ↦ elim (Bool-cases (ltb (length (bus.queues q)) max_size)) [
      | inl f ↦ record {
        in_order =
            rw (t, f, append_assoc (bus.queues q) (payload ∷ []) (pending q cs))
              (rw (e, t) at s.in_order);
        bounded = rw (t, f, length-append) (ground arith);
        subscribed = s.subscribed;
      }
      | inr f ↦ record {
        in_order =
            rw (t, f)
              (gone (bus.dropped q) (taken q bus) (bus.queues q) (pending q cs) (bus.sent q) payload
                (rw (e, t) at s.in_order));
        bounded = rw (t, f) s.bounded;
        subscribed = s.subscribed;
      }
    ]
    | inr t ↦ record {
      in_order = rw t (rw (e, t) at s.in_order);
      bounded = rw t s.bounded;
      subscribed = s.subscribed;
    }
  ]

  pub call-IsServed :
      (c : Callback) → bus.callbacks ≡ c ∷ cs → IsServed q (call c (record bus { callbacks = cs }))
  call-IsServed set_event e = record {
    in_order = (rw e at s.in_order);
    bounded = s.bounded;
    subscribed = s.subscribed;
  }
  call-IsServed (put_all payload targets) e = put_all-IsServed payload targets e

module _ (bus : Bus) (q : ℕ) (s : IsServed q bus) (p : ℕ) (watches : Bool) (payload : String) where
  pub take_message-IsServed :
      (rest : List String)
      → bus.streams p ≡ running watches
      → bus.queues p ≡ payload ∷ rest
      → IsServed q (take_message p watches payload rest bus)
  unfolding take_message
  take_message-IsServed rest runs waits = elim (Bool-cases (p == q)) [
    | inl e ↦
        let same = sym ((==_iff p q).0 e) in
        let here = ap bus.streams same ∙ runs in
        let queued = ap bus.queues same ∙ waits in
        record {
          in_order = rw (e, append_assoc) (rw (here, queued, append-nil) at s.in_order);
          bounded = rw e (let b = (rw queued at s.bounded) in omega arith);
          subscribed = rw e (rw here at s.subscribed);
        }
    | inr e ↦ record {
      in_order = rw e s.in_order;
      bounded = rw e s.bounded;
      subscribed = rw e s.subscribed;
    }
  ]

  module _ (holds : bus.streams p ≡ holding watches payload) where
    pub deliver-IsServed : IsServed q (deliver p watches payload bus)
    unfolding deliver
    deliver-IsServed = elim (Bool-cases (p == q)) [
      | inl e ↦
          let same = (==_iff p q).0 e in
          let here = ap bus.streams (sym same) ∙ holds in
          record {
            in_order = rw (e, same, append-nil) (rw here at s.in_order);
            bounded = s.bounded;
            subscribed = rw e (rw here at s.subscribed);
          }
      | inr e ↦ record {
        in_order = rw e s.in_order;
        bounded = s.bounded;
        subscribed = rw e s.subscribed;
      }
    ]

    pub abandon-IsServed : IsServed q (abandon p bus)
    unfolding abandon unsubscribe
    abandon-IsServed = elim (Bool-cases (p == q)) [
      | inl e ↦
          let same = (==_iff p q).0 e in
          let here = ap bus.streams (sym same) ∙ holds in
          record {
            in_order =
                rw (e, same, append-nil)
                  (gone (bus.dropped q) (bus.received q) []
                    (bus.queues q ++ pending q bus.callbacks) (bus.sent q) payload
                    (rw (here, append_assoc) at s.in_order));
            bounded = s.bounded;
            subscribed = rw e refl;
          }
      | inr e ↦ record {
        in_order = rw e s.in_order;
        bounded = s.bounded;
        subscribed = rw e s.subscribed;
      }
    ]
