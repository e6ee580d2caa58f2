-- ===== src/Messaging/Latency.antt =====
-- How long the dispatcher of pkg/messaging/broker.go holds an event, and which event it sends.
use osm_edge.Messaging.Events.{ProxyUpdateEvent}
use osm_edge.Messaging.Broker.{
  Dispatcher, goes_on, Broker, new_broker, Input, max_taken, run, no_timeout,
  proxy_update_max_window,
}
use osm_edge.Messaging.Batches.{
  Batch, no_batch, holding, Batcher, new_batcher, step, steps, elapsed,
}
use osm_edge.Messaging.Windows.{Represents, Holds}
use osm_edge.Messaging.Times.{step-now, elapsed-cons}
use osm_edge.Messaging.Begun.{IsBegun, steps-IsBegun}
use osm_edge.Messaging.Endings.{latest_broadcast, IsTimer, Ends, steps-Ends, steps-Adds, steps-now}
use osm_edge.Messaging.Refinement.{run-Represents, run-new_broker_refines}
use osm_edge.Base.{
  ℕ, ◌+◌, ◌≤◌, ◌<◌, true, false, List, [], ◌∷◌, ◌++◌, ◌≡◌, refl, sym, ap, ◌∙◌, subst, inl, inr,
  arith, nat_comparable, bool_comparable, string_comparable, option_comparable, list_comparable,
  pair_comparable,
}

-- A pending event stands in the batch.
pending-holding :
    (now : ℕ) (s : Batcher) (batch : Batch) (b : Broker)
    → Holds now batch b.dispatcher
    → b.dispatcher.dispatch_pending ≡ true
    → IsBegun s batch
    → (first : ℕ) × (latest : ℕ) × (batch ≡ holding b.dispatcher.event first latest)
      × (first ≤ s.now)
pending-holding now s no_batch b h p g = absurd (let clash = sym h.0 ∙ p in ground arith)
pending-holding now s (holding e first latest) b h p g =
    (first, latest, ap (λ d. holding d first latest) (sym h.1), g)

elapsed-append : (xs ys : List Input) → elapsed (xs ++ ys) ≡ elapsed xs + elapsed ys
unfolding elapsed
elapsed-append [] ys = omega arith
elapsed-append (x ∷ xs) ys =
    omega (arith, elapsed-append xs ys, elapsed-cons x xs, elapsed-cons x (xs ++ ys))

same_broker : {b b' : Broker} → goes_on b ≡ goes_on b' → b ≡ b'
same_broker e = cc

-- A run at some turn of which the dispatcher takes one of its timers and publishes the event that it
-- holds: the latest broadcast that came up to there. It held an event until then and holds none after.
-- Before the turn and after it the run goes on, and what is published stays.
pub record Dispatches (e : ProxyUpdateEvent) (b : Broker) (is : List Input) : Type 0 where
  pub before : List Input
  pub after : List Input
  pub timer : Input
  pub at : is ≡ before ++ timer ∷ after
  pub is_timer : IsTimer timer
  pub holder : Broker
  pub sender : Broker
  pub last : Broker
  pub reaches : run before b ≡ goes_on holder
  pub is_pending : holder.dispatcher.dispatch_pending ≡ true
  pub turns : run (timer ∷ []) holder ≡ goes_on sender
  pub publishes : sender.published ≡ holder.published ++ latest_broadcast e before ∷ []
  pub is_over : sender.dispatcher.dispatch_pending ≡ false
  pub goes : run after sender ≡ goes_on last
  pub earlier : List ProxyUpdateEvent
  pub later : List ProxyUpdateEvent
  pub was_published : holder.published ≡ b.published ++ earlier
  pub stays_published : last.published ≡ sender.published ++ later

elapsed-IsTimer : (i : Input) → IsTimer i → elapsed (i ∷ []) ≡ 0
unfolding elapsed
elapsed-IsTimer i (inl e) = rw e refl
elapsed-IsTimer i (inr e) = rw e refl

holding-pending :
    (now : ℕ) (batch : Batch) (e : ProxyUpdateEvent) (first latest : ℕ) (d : Dispatcher)
    → batch ≡ holding e first latest
    → Holds now batch d
    → d.dispatch_pending ≡ true
holding-pending now batch e first latest d h k = (subst (λ x. Holds now x d) h k).0

over-pending :
    (now : ℕ) (batch : Batch) (d : Dispatcher)
    → batch ≡ no_batch
    → Holds now batch d
    → d.dispatch_pending ≡ false
over-pending now batch d h k = (subst (λ x. Holds now x d) h k).0

steps-one : (i : Input) (s : Batcher) → steps (i ∷ []) s ≡ step i s
unfolding steps
steps-one i s = refl

-- The broker does what ends the batcher's batch.
Ends-Dispatches :
    (e : ProxyUpdateEvent) (s : Batcher) (b : Broker) (is : List Input)
    → Represents s b
    → s.now + elapsed is < no_timeout
    → Ends e s is
    → Dispatches e b is
Ends-Dispatches e s b is r decade d =
    let s1 = steps d.before s in
    let s2 = step d.timer s1 in
    let times : elapsed is ≡ elapsed d.before + (elapsed (d.timer ∷ []) + elapsed d.after) =
      ap elapsed d.at
      ∙ elapsed-append d.before (d.timer ∷ d.after)
      ∙ ap (λ n. elapsed d.before + n) (elapsed-cons d.timer d.after) in
    let held = run-Represents d.before s b (omega (arith, times)) r in
    let sent =
      run-Represents (d.timer ∷ []) s1 held.0 (omega (arith, times, steps-now d.before s)) held.2 in
    let r2 : Represents s2 sent.0 =
      subst (λ x. Represents x sent.0) (steps-one d.timer s1) sent.2 in
    let last =
      run-Represents d.after s2 sent.0
        (omega (arith, times, steps-now d.before s, step-now d.timer s1)) r2 in
    let was = steps-Adds d.before s in
    let stays = steps-Adds d.after s2 in
    record {
      before = d.before;
      after = d.after;
      timer = d.timer;
      at = d.at;
      is_timer = d.is_timer;
      holder = held.0;
      sender = sent.0;
      last = last.0;
      reaches = held.1;
      is_pending =
          holding-pending s1.now s1.batch (latest_broadcast e d.before) d.first d.kept.0
            held.0.dispatcher d.kept.1 held.2.held;
      turns = sent.1;
      publishes =
          r2.same_sent
          ∙ ap (λ x. x.sent) d.sends
          ∙ ap (λ l. l ++ latest_broadcast e d.before ∷ []) (sym held.2.same_sent);
      is_over = over-pending s2.now s2.batch sent.0.dispatcher (ap (λ x. x.batch) d.sends) r2.held;
      goes = last.1;
      earlier = was.0;
      later = stays.0;
      was_published = held.2.same_sent ∙ was.1 ∙ ap (λ l. l ++ was.0) (sym r.same_sent);
      stays_published = last.2.same_sent ∙ stays.1 ∙ ap (λ l. l ++ stays.0) (sym r2.same_sent);
    }

-- If an event is pending, and ten seconds pass in which the dispatcher may do and receive anything,
-- then, by the time at which it next looks at the timer of the longer window, it has taken one of its
-- timers and published the event that it held: the pending one or the latest broadcast that came
-- since. Nothing blocks on the way, and what is published stays, if all of this lies in the first
-- decade.
pub max_window_publishes :
    (before during : List Input) (b : Broker)
    → run before new_broker ≡ goes_on b
    → b.dispatcher.dispatch_pending ≡ true
    → proxy_update_max_window ≤ elapsed during
    → elapsed before + elapsed during < no_timeout
    → Dispatches b.dispatcher.event b (during ++ max_taken ∷ [])
max_window_publishes before during b e p late decade =
    let begun = run-new_broker_refines before (omega arith) in
    let s = steps before new_batcher in
    let r : Represents s b = subst (Represents s) (same_broker (sym begun.1 ∙ e)) begun.2 in
    let held = pending-holding s.now s s.batch b r.held p (steps-IsBegun before new_batcher tt) in
    Ends-Dispatches b.dispatcher.event s b (during ++ max_taken ∷ []) r
      (omega (
        arith,
        steps-now before new_batcher,
        elapsed-append during (max_taken ∷ []),
        elapsed-IsTimer max_taken (inr refl),
      ))
      (steps-Ends during b.dispatcher.event held.0 s (held.1, held.2) (omega arith))
