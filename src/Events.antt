-- ===== src/Events.antt =====
-- backend/events.py and `_event_stream` of backend/app.py: the subscribers' queues, the callbacks that
-- other threads hand to the event loop, and the streams that read the queues. A queue and its stream
-- have one number; the set of subscribers is a test on it. One lifespan, with one shutdown event.
pub mod Delivery
pub mod Order
pub mod Served
mod Tests
use ghpulse.Prelude.{
  ℕ, suc, ◌+◌, String, Bool, true, false, not, ◌&&◌, ◌||◌, ◌≡◌, List, [], ◌∷◌, ◌++◌, ◌==◌, ltb,
  length, if◌then◌else◌,
}

-- `asyncio.Queue(maxsize=16)`
abbrev pub max_size : ℕ
max_size = 16

-- `call_soon_threadsafe` has one of two callbacks: `_put_all`, or `set` of the shutdown event.
pub data Callback : Type 0 where
  put_all : (payload : String) (targets : ℕ → Bool) → Callback
  set_event : Callback

-- A stream before its start, under way, with or without a shutdown event to watch, and after. On its
-- way it waits for a message, or it holds one: its `queue.get` has ended.
pub data Stream : Type 0 where
  absent : Stream
  running : (watches : Bool) → Stream
  holding : (watches : Bool) (payload : String) → Stream
  finished : Stream

pub record Bus : Type 0 where
  pub subscribers : ℕ → Bool
  -- the waiting messages, the oldest first
  pub queues : ℕ → List String
  pub next_queue : ℕ
  -- `_main_loop` is not None, and the loop is closed
  pub loop_set : Bool
  pub loop_closed : Bool
  -- `_shutdown_event` is not None, and the event is set
  pub event_known : Bool
  pub event_set : Bool
  -- what the loop has to run, the oldest first
  pub callbacks : List Callback
  pub streams : ℕ → Stream
  -- the history: what was broadcast to a subscriber, what its stream yielded, and how many of its
  -- messages were dropped
  pub sent : ℕ → List String
  pub received : ℕ → List String
  pub dropped : ℕ → ℕ

abbrev pub loaded : Bus
loaded = record {
  subscribers = λ q. false;
  queues = λ q. [];
  next_queue = 0;
  loop_set = false;
  loop_closed = false;
  event_known = false;
  event_set = false;
  callbacks = [];
  streams = λ q. absent;
  sent = λ q. [];
  received = λ q. [];
  dropped = λ q. 0;
}

-- A family with one entry replaced.
abbrev pub update {ℓ} : {A : Type ℓ} → ℕ → A → (ℕ → A) → ℕ → A
update q a f p = if q == p then a else f p

unfoldable pub set_loop : Bus → Bus
set_loop bus = record bus { loop_set = true; event_known = true; event_set = false }

unfoldable pub clear_loop : Bus → Bus
clear_loop bus = record bus { loop_set = false; event_known = false }

-- `raced` tells that the loop closes between the test and the call, which then raises.
unfoldable pub signal_shutdown : (raced : Bool) → Bus → Bus
signal_shutdown raced bus =
    if not bus.event_known || (not bus.loop_set || (bus.loop_closed || raced))
    then bus
    else record bus { callbacks = bus.callbacks ++ (set_event ∷ []) }

-- The new queue has the next number; its stream starts with it.
unfoldable pub subscribe : Bus → Bus
subscribe bus = record bus {
  subscribers = update bus.next_queue true bus.subscribers;
  queues = update bus.next_queue [] bus.queues;
  next_queue = bus.next_queue + 1;
  streams = update bus.next_queue (running bus.event_known) bus.streams;
}

-- The stream's `finally`.
unfoldable pub unsubscribe : ℕ → Bus → Bus
unsubscribe q bus = record bus {
  subscribers = update q false bus.subscribers;
  streams = update q finished bus.streams;
}

-- A message goes to the subscribers of the moment; its text is the caller's.
unfoldable pub broadcast : (raced : Bool) (payload : String) → Bus → Bus
broadcast raced payload bus =
    if not bus.loop_set || (bus.loop_closed || raced) then bus else record bus {
      callbacks = bus.callbacks ++ (put_all payload bus.subscribers ∷ []);
      sent = λ q. if bus.subscribers q then bus.sent q ++ (payload ∷ []) else bus.sent q;
    }

-- `put_nowait`, and `QueueFull` passed over
unfoldable pub put_nowait : String → List String → List String
put_nowait payload queue = if ltb (length queue) max_size then queue ++ (payload ∷ []) else queue

abbrev pub is_full : List String → Bool
is_full queue = not (ltb (length queue) max_size)

-- What the loop runs.
abbrev pub call : Callback → Bus → Bus
call set_event bus = record bus { event_set = true }
call (put_all payload targets) bus = record bus {
  queues = λ q. if targets q then put_nowait payload (bus.queues q) else bus.queues q;
  dropped = λ q. if targets q && is_full (bus.queues q) then bus.dropped q + 1 else bus.dropped q;
}

-- `queue.get` takes the oldest message.
unfoldable pub take_message : ℕ → Bool → String → List String → Bus → Bus
take_message q watches payload rest bus = record bus {
  queues = update q rest bus.queues;
  streams = update q (holding watches payload) bus.streams;
}

-- `yield first.result()`
unfoldable pub deliver : ℕ → Bool → String → Bus → Bus
deliver q watches payload bus = record bus {
  streams = update q (running watches) bus.streams;
  received = update q (bus.received q ++ (payload ∷ [])) bus.received;
}

-- A stream that holds a message and then is closed, or sees the shutdown, ends without it.
unfoldable pub abandon : ℕ → Bus → Bus
abandon q bus = unsubscribe q (record bus { dropped = update q (bus.dropped q + 1) bus.dropped })

-- One action of a thread, the loop or a stream.
pub data Step (bus : Bus) : Bus → Type 0 where
  sets_loop : Step bus (set_loop bus)
  clears_loop : Step bus (clear_loop bus)
  closes_loop : Step bus (record bus { loop_closed = true })
  signals : (raced : Bool) → Step bus (signal_shutdown raced bus)
  connects : Step bus (subscribe bus)
  broadcasts : (raced : Bool) (payload : String) → Step bus (broadcast raced payload bus)
  runs :
      (c : Callback) (cs : List Callback)
      → bus.callbacks ≡ c ∷ cs
      → Step bus (call c (record bus { callbacks = cs }))
  takes :
      (q : ℕ) (watches : Bool) (payload : String) (rest : List String)
      → bus.streams q ≡ running watches
      → bus.queues q ≡ payload ∷ rest
      → Step bus (take_message q watches payload rest bus)
  delivers :
      (q : ℕ) (watches : Bool) (payload : String)
      → bus.streams q ≡ holding watches payload
      → (watches && bus.event_set) ≡ false
      → Step bus (deliver q watches payload bus)
  -- the client is gone, or the shutdown event is set
  ends : (q : ℕ) (watches : Bool) → bus.streams q ≡ running watches → Step bus (unsubscribe q bus)
  abandons :
      (q : ℕ) (watches : Bool) (payload : String)
      → bus.streams q ≡ holding watches payload
      → Step bus (abandon q bus)

pub data Reach : Bus → Type 0 where
  start : Reach loaded
  next : {a b : Bus} → Reach a → Step a b → Reach b
