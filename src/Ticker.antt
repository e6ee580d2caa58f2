-- ===== src/Ticker.antt =====
-- pkg/ticker/ticker.go: the ticker that queues an update of all proxies, switched by the mesh
-- configuration. The watcher, the ticker routines and the times at which they run are inputs of one
-- machine. A send on the unbuffered stop channel waits for a ticker routine.
pub mod Laws
use osm_edge.Messaging.Broker.{add_uint64}
use osm_edge.Base.{
  ℕ, ◌+◌, ◌-◌, String, Bool, true, false, not, ◌&&◌, Option, none, some, List, [], ◌∷◌, ◌==◌,
  nat_comparable, bool_comparable, string_comparable, option_comparable, list_comparable,
  pair_comparable, if◌then◌else◌, leb, is_some,
}

-- `time.ParseDuration` is a parameter; a duration is a number of nanoseconds, or less than 0.
pub data Duration : Type 0 where
  nanoseconds : ℕ → Duration
  negative : Duration

-- What the watcher does once its send on the stop channel has been received.
pub data Pending : Type 0 where
  then_start then_watch then_return : Pending

-- `spawned` are the routines of `startTicker` that have not yet set `running`, `ticking` those that
-- are in their loop. `waiting` is the send at which the watcher waits; `watching` is false once it
-- has returned. `queued` counts the events that were added to the queue.
pub record ResyncTicker : Type 0 where
  pub running : Bool
  pub spawned : ℕ
  pub ticking : ℕ
  pub waiting : Option Pending
  pub watching : Bool
  pub invalid_interval_counter : ℕ
  pub queued : ℕ

-- `running` is false at the start, so `Start` stops nothing.
unfoldable pub start : ℕ → Duration → ResyncTicker
start min_tick_interval resync_interval = record {
  running = false;
  spawned = elim resync_interval [
    | nanoseconds n ↦ if leb min_tick_interval n then 1 else 0
    | negative ↦ 0
  ];
  ticking = 0;
  waiting = none;
  watching = true;
  invalid_interval_counter = 0;
  queued = 0;
}

abbrev pub spawn : ResyncTicker → ResyncTicker
spawn t = record t { spawned = t.spawned + 1 }

abbrev wait : Pending → ResyncTicker → ResyncTicker
wait pending t = record t { waiting = some pending }

-- The three branches on the new interval.
abbrev pub update : ℕ → ResyncTicker → Duration → ResyncTicker
update min_tick_interval t negative = record t {
  invalid_interval_counter = add_uint64 t.invalid_interval_counter;
}
update min_tick_interval t (nanoseconds n) =
    if leb min_tick_interval n
    then if t.running then wait then_start t else spawn t
    else if n == 0
    then wait then_watch t
    else record t { invalid_interval_counter = add_uint64 t.invalid_interval_counter }

-- The cases of the watcher's and of the routines' loops. A case that is not ready is passed over.
pub data Input : Type 0 where
  config_updated : String → String → Input
  quits begins receives_stop ticks : Input

abbrev pub is_ready : ResyncTicker → Bool
is_ready t = t.watching && not (is_some t.waiting)

-- `stopTicker` after its send: `running` is reset, and the watcher goes on.
abbrev pub stopped : Option Pending → ResyncTicker → ResyncTicker
stopped none t = t
stopped (some then_start) t =
    spawn (record t { ticking = t.ticking - 1; running = false; waiting = none })
stopped (some then_watch) t = record t { ticking = t.ticking - 1; running = false; waiting = none }
stopped (some then_return) t = record t {
  ticking = t.ticking - 1;
  running = false;
  waiting = none;
  watching = false;
}

module _ (min_tick_interval : ℕ) (parse_duration : String → Option Duration) where
  abbrev pub parsed : ResyncTicker → Option Duration → ResyncTicker
  parsed t none = t
  parsed t (some d) = update min_tick_interval t d

  -- An updated mesh configuration, with the old and the new interval.
  abbrev pub config : String → String → ResyncTicker → ResyncTicker
  config old new t =
      if old == new then t else if new == "" then t else parsed t (parse_duration new)

  unfoldable pub handle : Input → ResyncTicker → ResyncTicker
  handle (config_updated old new) t = if is_ready t then config old new t else t
  handle quits t = if is_ready t then wait then_return t else t
  handle begins t =
      if t.spawned == 0
      then t
      else record t { spawned = t.spawned - 1; ticking = t.ticking + 1; running = true }
  handle receives_stop t = if t.ticking == 0 then t else stopped t.waiting t
  handle ticks t = if t.ticking == 0 then t else record t { queued = t.queued + 1 }

  unfoldable pub run : List Input → ResyncTicker → ResyncTicker
  run [] t = t
  run (i ∷ is) t = run is (handle i t)
