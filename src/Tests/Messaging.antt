-- ===== src/Tests/Messaging.antt =====
-- The dispatcher and the ticker at short runs.
use osm_edge.Messaging.Events.{PubSubMessage, other_object, proxy_update, get_proxy_update_event}
use osm_edge.Messaging.Broker.{
  goes_on, armed, no_timeout, Input, passes, yields, sliding_taken, max_taken, Broker, new_broker,
  run, turn, proxy_update_max_window,
}
use osm_edge.Messaging.Batches.{new_batcher, steps, elapsed}
use osm_edge.Messaging.Windows.{Represents}
use osm_edge.Messaging.Refinement.{run-new_broker_refines}
use osm_edge.Messaging.Latency.{Dispatches, max_window_publishes}
use osm_edge.Ticker as Ticker
use osm_edge.Ticker.{
  ResyncTicker, Duration, nanoseconds, then_watch, config_updated, start, ticks, begins,
}
use osm_edge.Ticker.Laws.{zero_interval_blocks}
use osm_edge.Base.{
  ◌+◌, ◌≤◌, ◌<◌, String, true, false, Option, none, some, List, [], ◌∷◌, ◌++◌, ◌≡◌, refl, arith,
  ◌==◌, nat_comparable, bool_comparable, string_comparable, option_comparable, list_comparable,
  pair_comparable, if◌then◌else◌,
}

abbrev message : PubSubMessage
message = record { kind = "endpoint-added"; old_obj = other_object; new_obj = other_object }

abbrev one_event : List Input
one_event = yields (some message) ∷ []

-- An event each second: the sliding window never ends.
abbrev busy : List Input
busy =
    passes 1000000000
    ∷ yields (some message)
    ∷ passes 1000000000
    ∷ yields (some message)
    ∷ sliding_taken
    ∷ passes 8000000000
    ∷ []

abbrev pending_broker : Broker
pending_broker = record new_broker {
  total_q_event_count = 1;
  total_q_proxy_event_count = 1;
  kube_events = message ∷ [];
  dispatcher = record {
    sliding_timer = armed 2000000000;
    max_timer = armed 10000000000;
    dispatch_pending = true;
    batch_count = 1;
    event = record { msg = message; topic = proxy_update };
  };
}

one_event_runs : run one_event new_broker ≡ goes_on pending_broker
unfolding run turn get_proxy_update_event
one_event_runs = refl

within_decade : elapsed (one_event ++ busy) < no_timeout
unfolding elapsed
within_decade = omega arith

long_enough : proxy_update_max_window ≤ elapsed busy
unfolding elapsed
long_enough = omega arith

in_decade : elapsed one_event + elapsed busy < no_timeout
unfolding elapsed
in_decade = omega arith

refines_example :
    (b : Broker) × (run (one_event ++ busy) new_broker ≡ goes_on b)
    × Represents (steps (one_event ++ busy) new_batcher) b
refines_example = run-new_broker_refines (one_event ++ busy) within_decade

publishes_example :
    Dispatches pending_broker.dispatcher.event pending_broker (busy ++ max_taken ∷ [])
publishes_example =
    max_window_publishes one_event busy pending_broker one_event_runs refl long_enough in_decade

abbrev parse_zero : String → Option Duration
parse_zero text = if text == "0s" then some (nanoseconds 0) else none

abbrev idle : ResyncTicker
idle = record {
  running = false;
  spawned = 0;
  ticking = 0;
  waiting = none;
  watching = true;
  invalid_interval_counter = 0;
  queued = 0;
}

positive : 0 < 10
positive = omega arith

blocks_example :
    Ticker.run 10 parse_zero
      (config_updated "" "0s" ∷ config_updated "0s" "5m" ∷ begins ∷ ticks ∷ [])
      idle
    ≡ record idle { waiting = some then_watch }
blocks_example =
    zero_interval_blocks 10 parse_zero "" "0s" (config_updated "0s" "5m" ∷ begins ∷ ticks ∷ []) idle
      refl refl refl positive refl refl refl
