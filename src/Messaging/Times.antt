-- ===== src/Messaging/Times.antt =====
-- The time of the batcher, and the time that passes in a list of inputs.
use osm_edge.Messaging.Events.{ProxyUpdateEvent, proxy_update}
use osm_edge.Messaging.Broker.{
  Input, passes, yields, sliding_taken, max_taken, proxy_update_sliding_window,
  proxy_update_max_window,
}
use osm_edge.Messaging.Batches.{
  Batch, no_batch, holding, Batcher, accept, yielded, end_if, end_sliding, end_max, step, elapsed,
}
use osm_edge.Base.{
  ◌+◌, Bool, true, false, Option, none, some, List, [], ◌∷◌, ◌≡◌, refl, inl, inr, arith, ◌==◌,
  nat_comparable, bool_comparable, string_comparable, option_comparable, list_comparable,
  pair_comparable, leb, Bool-cases,
}

pub accept-now : (o : Option ProxyUpdateEvent) (s : Batcher) → (accept o s).now ≡ s.now
accept-now none s = refl
accept-now (some e) s = elim (Bool-cases (e.topic == proxy_update)) [
  | inl t ↦ rw t refl
  | inr t ↦ rw t refl
]

pub end_if-now : (over : Bool) (e : ProxyUpdateEvent) (s : Batcher) → (end_if over e s).now ≡ s.now
end_if-now true e s = refl
end_if-now false e s = refl

pub end_sliding-now : (batch : Batch) (s : Batcher) → (end_sliding batch s).now ≡ s.now
end_sliding-now no_batch s = refl
end_sliding-now (holding e first latest) s =
    end_if-now (leb (latest + proxy_update_sliding_window) s.now) e s

pub end_max-now : (batch : Batch) (s : Batcher) → (end_max batch s).now ≡ s.now
end_max-now no_batch s = refl
end_max-now (holding e first latest) s =
    end_if-now (leb (first + proxy_update_max_window) s.now) e s

pub step-now : (i : Input) (s : Batcher) → (step i s).now ≡ s.now + elapsed (i ∷ [])
unfolding step elapsed
step-now (passes n) s = omega arith
step-now (yields item) s = omega (arith, accept-now (yielded item) s)
step-now sliding_taken s = omega (arith, end_sliding-now s.batch s)
step-now max_taken s = omega (arith, end_max-now s.batch s)

pub elapsed-cons : (i : Input) (is : List Input) → elapsed (i ∷ is) ≡ elapsed (i ∷ []) + elapsed is
unfolding elapsed
elapsed-cons (passes n) is = omega arith
elapsed-cons (yields item) is = omega arith
elapsed-cons sliding_taken is = omega arith
elapsed-cons max_taken is = omega arith
