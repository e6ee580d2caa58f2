-- ===== src/Messaging/Broker.antt =====
-- The broker of pkg/messaging/broker.go and workqueue.go. The goroutines are turns of one machine:
-- time passes, the work queue yields an item, or the dispatcher takes one of its two timers. Times are
-- nanoseconds since the start. A publication is an entry of a list; the metrics and the logs are left
-- out.
use osm_edge.Messaging.Events.{
  PubSubMessage, ProxyUpdateEvent, other_object, proxy_update, get_proxy_update_event,
}
use osm_edge.Base.{
  ℕ, ◌+◌, ◌*◌, ◌%◌, ◌^◌, Bool, true, false, not, Option, none, some, List, [], ◌∷◌, ◌++◌, ◌==◌,
  nat_comparable, bool_comparable, string_comparable, option_comparable, list_comparable,
  pair_comparable, if◌then◌else◌, leb,
}

abbrev second : ℕ
second = 1000000000

abbrev pub proxy_update_sliding_window : ℕ
proxy_update_sliding_window = 2 * second

abbrev pub proxy_update_max_window : ℕ
proxy_update_max_window = 10 * second

-- A decade.
abbrev pub no_timeout : ℕ
no_timeout = 87600 * (3600 * second)

-- A `time.Timer` with its channel: it runs until a time, it has fired and the channel holds the value,
-- or it has fired and the channel is empty.
pub data Timer : Type 0 where
  armed : ℕ → Timer
  fired drained : Timer

-- What a goroutine does next: it goes on, its case is not ready, or it waits for a value for ever.
pub data Turn {ℓ} (A : Type ℓ) : Type ℓ where
  goes_on : A → Turn A
  not_ready blocked : Turn A

infixl 5 ◌>>=◌
abbrev pub ◌>>=◌ {ℓ κ} : {A : Type ℓ} {B : Type κ} → Turn A → (A → Turn B) → Turn B
goes_on a >>= f = f a
not_ready >>= f = not_ready
blocked >>= f = blocked

-- Time has come to `now`.
abbrev pub expire : ℕ → Timer → Timer
expire now (armed deadline) = if leb deadline now then fired else armed deadline
expire now fired = fired
expire now drained = drained

-- `if !t.Stop() { <-t.C }; t.Reset(d)`. `Stop` is false once the timer has fired, and the receive
-- waits for a value that must still be there.
abbrev pub restart : ℕ → Timer → Turn Timer
restart deadline (armed _) = goes_on (armed deadline)
restart deadline fired = goes_on (armed deadline)
restart deadline drained = blocked

-- The local variables of the dispatcher.
pub record Dispatcher : Type 0 where
  pub sliding_timer : Timer
  pub max_timer : Timer
  pub dispatch_pending : Bool
  pub batch_count : ℕ
  pub event : ProxyUpdateEvent

-- `published` and `kube_events` are what the two pub-subs were given, in order.
pub record Broker : Type 0 where
  pub now : ℕ
  pub total_q_event_count : ℕ
  pub total_q_proxy_event_count : ℕ
  pub total_dispatched_proxy_event_count : ℕ
  pub published : List ProxyUpdateEvent
  pub kube_events : List PubSubMessage
  pub dispatcher : Dispatcher

abbrev pub no_event : ProxyUpdateEvent
no_event = record {
  msg = record { kind = ""; old_obj = other_object; new_obj = other_object };
  topic = "";
}

abbrev pub new_broker : Broker
new_broker = record {
  now = 0;
  total_q_event_count = 0;
  total_q_proxy_event_count = 0;
  total_dispatched_proxy_event_count = 0;
  published = [];
  kube_events = [];
  dispatcher = record {
    sliding_timer = armed no_timeout;
    max_timer = armed no_timeout;
    dispatch_pending = false;
    batch_count = 0;
    event = no_event;
  };
}

-- `atomic.AddUint64(&n, 1)`
abbrev pub add_uint64 : ℕ → ℕ
add_uint64 n = (n + 1) % 2 ^ 64

abbrev pub publish : ProxyUpdateEvent → Broker → Broker
publish e b = record b {
  published = b.published ++ e ∷ [];
  total_dispatched_proxy_event_count = add_uint64 b.total_dispatched_proxy_event_count;
}

-- The case `e, ok := <-b.proxyUpdateCh` of the dispatcher.
abbrev pub hold : ProxyUpdateEvent → Dispatcher → Timer → Timer → Dispatcher
hold e d sliding max = record d {
  sliding_timer = sliding;
  max_timer = max;
  dispatch_pending = true;
  batch_count = d.batch_count + 1;
  event = e;
}

unfoldable pub receive : ℕ → ProxyUpdateEvent → Dispatcher → Turn Dispatcher
receive now e d =
    if not d.dispatch_pending
    then restart (now + proxy_update_sliding_window) d.sliding_timer >>= (λ sliding.
      restart (now + proxy_update_max_window) d.max_timer
      >>= (λ max. goes_on (hold e d sliding max)))
    else restart (now + proxy_update_sliding_window) d.sliding_timer
      >>= (λ sliding. goes_on (hold e d sliding d.max_timer))

-- The end of a batch: the other timer is stopped, the event is published.
abbrev pub dispatch : Broker → Timer → Timer → Broker
dispatch b sliding max = publish b.dispatcher.event (record b {
  dispatcher = record b.dispatcher {
    sliding_timer = sliding;
    max_timer = max;
    dispatch_pending = false;
    batch_count = 0;
  };
})

-- The cases `<-slidingTimer.C` and `<-maxTimer.C`. The value is taken, so the timer can be reset.
unfoldable pub take_sliding : Broker → Timer → Turn Broker
take_sliding b fired =
    restart (b.now + no_timeout) b.dispatcher.max_timer
    >>= (λ max. goes_on (dispatch b (armed (b.now + no_timeout)) max))
take_sliding b (armed _) = not_ready
take_sliding b drained = not_ready

unfoldable pub take_max : Broker → Timer → Turn Broker
take_max b fired =
    restart (b.now + no_timeout) b.dispatcher.sliding_timer
    >>= (λ sliding. goes_on (dispatch b sliding (armed (b.now + no_timeout))))
take_max b (armed _) = not_ready
take_max b drained = not_ready

abbrev pub notify : PubSubMessage → Broker → Broker
notify message b = record b { kube_events = b.kube_events ++ message ∷ [] }

abbrev pub counted : Broker → Broker
counted b = record b { total_q_proxy_event_count = add_uint64 b.total_q_proxy_event_count }

-- An event that updates proxies: its own topic at once, a broadcast to the dispatcher.
abbrev pub pass_on : ProxyUpdateEvent → Broker → Turn Broker
pass_on e b =
    if not (e.topic == proxy_update)
    then goes_on (publish e b)
    else receive b.now e b.dispatcher >>= (λ d. goes_on (record b { dispatcher = d }))

-- What becomes of a message, given the event that it makes.
abbrev pub after_event : PubSubMessage → Broker → Option ProxyUpdateEvent → Turn Broker
after_event message b none = goes_on (notify message b)
after_event message b (some e) = pass_on e (counted b) >>= (λ b'. goes_on (notify message b'))

unfoldable pub process_event : PubSubMessage → Broker → Turn Broker
unfolding receive
process_event message b = after_event message b (get_proxy_update_event message)

-- An item of the queue that is not a message is `none`.
unfoldable pub process_next_item : Option PubSubMessage → Broker → Turn Broker
unfolding process_event
process_next_item item b =
    let begun = record b { total_q_event_count = add_uint64 b.total_q_event_count } in
    elim item [ none ↦ goes_on begun | some message ↦ process_event message begun ]

pub data Input : Type 0 where
  passes : ℕ → Input
  yields : Option PubSubMessage → Input
  sliding_taken max_taken : Input

abbrev pub pass : ℕ → Broker → Broker
pass n b = record b {
  now = b.now + n;
  dispatcher = record b.dispatcher {
    sliding_timer = expire (b.now + n) b.dispatcher.sliding_timer;
    max_timer = expire (b.now + n) b.dispatcher.max_timer;
  };
}

unfoldable pub turn : Input → Broker → Turn Broker
unfolding process_next_item take_sliding take_max
turn (passes n) b = goes_on (pass n b)
turn (yields item) b = process_next_item item b
turn sliding_taken b = take_sliding b b.dispatcher.sliding_timer
turn max_taken b = take_max b b.dispatcher.max_timer

-- A case that is not ready is not taken.
abbrev pub or_stays : Broker → Turn Broker → Turn Broker
or_stays b (goes_on b') = goes_on b'
or_stays b not_ready = goes_on b
or_stays b blocked = blocked

unfoldable pub run : List Input → Broker → Turn Broker
run [] b = goes_on b
run (i ∷ is) b = or_stays b (turn i b) >>= run is
