-- ===== src/Messaging/Batches.antt =====
-- What the dispatcher of pkg/messaging/broker.go promises, without timers: a batch holds the latest
-- event, the time of its first and of its latest event, and ends when one of the two windows is over.
use osm_edge.Messaging.Events.{
  PubSubMessage, ProxyUpdateEvent, proxy_update, get_proxy_update_event,
}
use osm_edge.Messaging.Broker.{
  Input, passes, yields, sliding_taken, max_taken, proxy_update_sliding_window,
  proxy_update_max_window,
}
use osm_edge.Base.{
  ℕ, ◌+◌, Bool, not, Option, none, some, List, [], ◌∷◌, ◌++◌, ◌==◌, nat_comparable, bool_comparable,
  string_comparable, option_comparable, list_comparable, pair_comparable, if◌then◌else◌, leb,
}

pub data Batch : Type 0 where
  no_batch : Batch
  holding : ProxyUpdateEvent → ℕ → ℕ → Batch

pub record Batcher : Type 0 where
  pub now : ℕ
  pub batch : Batch
  pub sent : List ProxyUpdateEvent

abbrev pub new_batcher : Batcher
new_batcher = record { now = 0; batch = no_batch; sent = [] }

abbrev pub extended : ProxyUpdateEvent → ℕ → Batch → Batch
extended e now no_batch = holding e now now
extended e now (holding _ first latest) = holding e first now

abbrev pub accept : Option ProxyUpdateEvent → Batcher → Batcher
accept none s = s
accept (some e) s =
    if not (e.topic == proxy_update)
    then record s { sent = s.sent ++ e ∷ [] }
    else record s { batch = extended e s.now s.batch }

abbrev pub yielded : Option PubSubMessage → Option ProxyUpdateEvent
yielded none = none
yielded (some message) = get_proxy_update_event message

abbrev pub end_if : Bool → ProxyUpdateEvent → Batcher → Batcher
end_if over e s = if over then record s { batch = no_batch; sent = s.sent ++ e ∷ [] } else s

abbrev pub end_sliding : Batch → Batcher → Batcher
end_sliding no_batch s = s
end_sliding (holding e first latest) s =
    end_if (leb (latest + proxy_update_sliding_window) s.now) e s

abbrev pub end_max : Batch → Batcher → Batcher
end_max no_batch s = s
end_max (holding e first latest) s = end_if (leb (first + proxy_update_max_window) s.now) e s

unfoldable pub step : Input → Batcher → Batcher
step (passes n) s = record s { now = s.now + n }
step (yields item) s = accept (yielded item) s
step sliding_taken s = end_sliding s.batch s
step max_taken s = end_max s.batch s

unfoldable pub steps : List Input → Batcher → Batcher
unfolding step
steps [] s = s
steps (i ∷ is) s = steps is (step i s)

-- The time that passes.
unfoldable pub elapsed : List Input → ℕ
elapsed [] = 0
elapsed (passes n ∷ is) = n + elapsed is
elapsed (yields item ∷ is) = elapsed is
elapsed (sliding_taken ∷ is) = elapsed is
elapsed (max_taken ∷ is) = elapsed is
