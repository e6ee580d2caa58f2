-- ===== src/Messaging/Refinement.antt =====
-- The broker of pkg/messaging does what the batcher without timers does.
use osm_edge.Messaging.Events.{
  PubSubMessage, ProxyUpdateEvent, proxy_update, get_proxy_update_event,
}
use osm_edge.Messaging.Broker.{
  armed, goes_on, ◌>>=◌, expire, Broker, new_broker, add_uint64, take_sliding, take_max, notify,
  counted, pass_on, publish, after_event, process_event, process_next_item, Input, passes, yields,
  sliding_taken, max_taken, pass, turn, or_stays, run, no_timeout, proxy_update_sliding_window,
  proxy_update_max_window,
}
use osm_edge.Messaging.Batches.{
  Batch, no_batch, holding, Batcher, new_batcher, extended, accept, yielded, end_sliding, end_max,
  step, steps, elapsed,
}
use osm_edge.Messaging.Windows.{
  Holds, Represents, pass-Holds, receive-Holds, Follows, take_sliding-IsEnded, take_max-IsEnded,
  taken-Follows, idle-Follows,
}
use osm_edge.Messaging.Times.{step-now, elapsed-cons}
use osm_edge.Base.{
  ◌+◌, ◌<◌, Option, none, some, List, [], ◌∷◌, ◌++◌, ◌≡◌, refl, sym, ap, ◌∙◌, subst, inl, inr,
  arith, ◌==◌, nat_comparable, bool_comparable, string_comparable, option_comparable,
  list_comparable, pair_comparable, Bool-cases,
}

module _ (s : Batcher) (b : Broker) (r : Represents s b) where
  sliding-Follows :
      (batch : Batch)
      → Holds s.now batch b.dispatcher
      → Follows (end_sliding batch s) b (take_sliding b b.dispatcher.sliding_timer)
  unfolding take_sliding
  sliding-Follows no_batch h =
      idle-Follows s b (take_sliding b) b.dispatcher.sliding_timer r h.1 (λ y. refl)
  sliding-Follows (holding e first latest) (p, q, sliding, max) =
      taken-Follows s b (take_sliding b) b.dispatcher.sliding_timer
        (latest + proxy_update_sliding_window) e r q sliding
        (take_sliding-IsEnded b (first + proxy_update_max_window)
          (max ∙ ap (λ now. expire now (armed (first + proxy_update_max_window))) (sym r.same_now)))
        (λ y. refl)

  max-Follows :
      (batch : Batch)
      → Holds s.now batch b.dispatcher
      → Follows (end_max batch s) b (take_max b b.dispatcher.max_timer)
  unfolding take_max
  max-Follows no_batch h = idle-Follows s b (take_max b) b.dispatcher.max_timer r h.2 (λ y. refl)
  max-Follows (holding e first latest) (p, q, sliding, max) =
      taken-Follows s b (take_max b) b.dispatcher.max_timer (first + proxy_update_max_window) e r q
        max
        (take_max-IsEnded b (latest + proxy_update_sliding_window) (
          sliding
          ∙ ap (λ now. expire now (armed (latest + proxy_update_sliding_window))) (sym r.same_now)))
        (λ y. refl)

  -- A broadcast goes to the dispatcher, an event with its own topic is published at once.
  pass_on-Follows :
      (e : ProxyUpdateEvent)
      → (b' : Broker) × (pass_on e (counted b) ≡ goes_on b') × Represents (accept (some e) s) b'
  pass_on-Follows e = elim (Bool-cases (e.topic == proxy_update)) [
    | inl same ↦
        let received = receive-Holds b.now e s.batch b.dispatcher (rw r.same_now r.held) in
        rw same (
          record (counted b) { dispatcher = received.0 },
          ap (λ t. t >>= (λ d. goes_on (record (counted b) { dispatcher = d }))) received.1,
          record {
            same_now = r.same_now;
            same_sent = r.same_sent;
            held =
                subst (λ now. Holds now (extended e now s.batch) received.0) r.same_now received.2;
          },
        )
    | inr other ↦ rw other (
      publish e (counted b),
      refl,
      record {
        same_now = r.same_now;
        same_sent = ap (λ l. l ++ e ∷ []) r.same_sent;
        held = r.held;
      },
    )
  ]

  after_event-Follows :
      (message : PubSubMessage) (o : Option ProxyUpdateEvent)
      → (b' : Broker) × (after_event message b o ≡ goes_on b') × Represents (accept o s) b'
  after_event-Follows message none = (
    notify message b,
    refl,
    record { same_now = r.same_now; same_sent = r.same_sent; held = r.held },
  )
  after_event-Follows message (some e) =
      let passed = pass_on-Follows e in
      (
        notify message passed.0,
        ap (λ t. t >>= (λ b'. goes_on (notify message b'))) passed.1,
        record {
          same_now = passed.2.same_now;
          same_sent = passed.2.same_sent;
          held = passed.2.held;
        },
      )

item-Follows :
    (s : Batcher) (b : Broker) (item : Option PubSubMessage)
    → Represents s b
    → Follows (accept (yielded item) s) b (process_next_item item b)
unfolding process_next_item process_event
item-Follows s b none r =
    (_, refl, record { same_now = r.same_now; same_sent = r.same_sent; held = r.held })
item-Follows s b (some message) r =
    let begun = record b { total_q_event_count = add_uint64 b.total_q_event_count } in
    let followed =
      after_event-Follows s begun
        (record { same_now = r.same_now; same_sent = r.same_sent; held = r.held }) message
        (get_proxy_update_event message) in
    (followed.0, ap (or_stays b) followed.1, followed.2)

turn-Follows :
    (i : Input) (s : Batcher) (b : Broker)
    → (step i s).now < no_timeout
    → Represents s b
    → Follows (step i s) b (turn i b)
unfolding step turn
turn-Follows (passes n) s b h r = (
  pass n b,
  refl,
  record {
    same_now = ap (λ now. now + n) r.same_now;
    same_sent = r.same_sent;
    held =
        subst
          (λ now. Holds (s.now + n) s.batch (record b.dispatcher {
            sliding_timer = expire (now + n) b.dispatcher.sliding_timer;
            max_timer = expire (now + n) b.dispatcher.max_timer;
          }))
          (sym r.same_now) (pass-Holds s.now n s.batch b.dispatcher h r.held);
  },
)
turn-Follows (yields item) s b h r = item-Follows s b item r
turn-Follows sliding_taken s b h r = sliding-Follows s b r s.batch r.held
turn-Follows max_taken s b h r = max-Follows s b r s.batch r.held

-- From a broker that represents a batcher, no sequence of turns blocks before a decade is over, and
-- the broker after it represents the batcher after the same turns.
pub run-Represents :
    (is : List Input) (s : Batcher) (b : Broker)
    → s.now + elapsed is < no_timeout
    → Represents s b
    → (b' : Broker) × (run is b ≡ goes_on b') × Represents (steps is s) b'
unfolding run steps
run-Represents [] s b h r = (b, refl, r)
run-Represents (i ∷ is) s b h r =
    let followed = turn-Follows i s b (omega (arith, step-now i s, elapsed-cons i is)) r in
    let rest =
      run-Represents is (step i s) followed.0 (omega (arith, step-now i s, elapsed-cons i is))
        followed.2 in
    (rest.0, ap (λ t. t >>= run is) followed.1 ∙ rest.1, rest.2)

new-Represents : Represents new_batcher new_broker
new-Represents = record {
  same_now = refl;
  same_sent = refl;
  held = (refl, (no_timeout, refl, omega arith), (no_timeout, refl, omega arith));
}

-- In the first decade no sequence of turns blocks a new broker: each timer that is drained holds its
-- value. What it has published is what the batcher sends after the same turns, and an event is
-- pending exactly when the batcher holds it, with the timers of its first and its latest event.
pub run-new_broker_refines :
    (is : List Input)
    → elapsed is < no_timeout
    → (b : Broker) × (run is new_broker ≡ goes_on b) × Represents (steps is new_batcher) b
run-new_broker_refines is h = run-Represents is new_batcher new_broker (omega arith) new-Represents
