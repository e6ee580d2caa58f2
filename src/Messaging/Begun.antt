-- ===== src/Messaging/Begun.antt =====
-- The batch of the specification of the dispatcher begins in the past.
use osm_edge.Messaging.Events.{ProxyUpdateEvent, proxy_update}
use osm_edge.Messaging.Broker.{
  Input, passes, yields, sliding_taken, max_taken, proxy_update_sliding_window,
  proxy_update_max_window,
}
use osm_edge.Messaging.Batches.{
  Batch, no_batch, holding, Batcher, extended, accept, yielded, end_if, end_sliding, end_max, step,
  steps,
}
use osm_edge.Base.{
  ℕ, ◌+◌, ◌≤◌, Bool, true, false, Option, none, some, List, [], ◌∷◌, inl, inr, arith, ◌==◌,
  nat_comparable, bool_comparable, string_comparable, option_comparable, list_comparable,
  pair_comparable, leb, Bool-cases,
}

-- The first event of a batch is not in the future.
abbrev pub IsBegun : Batcher → Batch → Type 0
IsBegun s no_batch = Unit {0}
IsBegun s (holding e first latest) = first ≤ s.now

extended-IsBegun :
    (e : ProxyUpdateEvent) (s : Batcher) (batch : Batch)
    → IsBegun s batch
    → IsBegun s (extended e s.now batch)
extended-IsBegun e s no_batch h = omega arith
extended-IsBegun e s (holding d first latest) h = h

accept-IsBegun :
    (o : Option ProxyUpdateEvent) (s : Batcher)
    → IsBegun s s.batch
    → IsBegun (accept o s) (accept o s).batch
accept-IsBegun none s h = h
accept-IsBegun (some e) s h = elim (Bool-cases (e.topic == proxy_update)) [
  | inl t ↦ rw t (extended-IsBegun e s s.batch h)
  | inr t ↦ rw t h
]

end_if-IsBegun :
    (over : Bool) (e : ProxyUpdateEvent) (s : Batcher)
    → IsBegun s s.batch
    → IsBegun (end_if over e s) (end_if over e s).batch
end_if-IsBegun true e s h = tt
end_if-IsBegun false e s h = h

end_sliding-IsBegun :
    (batch : Batch) (s : Batcher)
    → IsBegun s s.batch
    → IsBegun (end_sliding batch s) (end_sliding batch s).batch
end_sliding-IsBegun no_batch s h = h
end_sliding-IsBegun (holding e f latest) s h =
    end_if-IsBegun (leb (latest + proxy_update_sliding_window) s.now) e s h

end_max-IsBegun :
    (batch : Batch) (s : Batcher)
    → IsBegun s s.batch
    → IsBegun (end_max batch s) (end_max batch s).batch
end_max-IsBegun no_batch s h = h
end_max-IsBegun (holding e f latest) s h =
    end_if-IsBegun (leb (f + proxy_update_max_window) s.now) e s h

passes-IsBegun :
    (n : ℕ) (s : Batcher) (batch : Batch)
    → IsBegun s batch
    → IsBegun (record s { now = s.now + n }) batch
passes-IsBegun n s no_batch h = h
passes-IsBegun n s (holding e first latest) h = omega arith

step-IsBegun : (i : Input) (s : Batcher) → IsBegun s s.batch → IsBegun (step i s) (step i s).batch
unfolding step
step-IsBegun (passes n) s h = passes-IsBegun n s s.batch h
step-IsBegun (yields item) s h = accept-IsBegun (yielded item) s h
step-IsBegun sliding_taken s h = end_sliding-IsBegun s.batch s h
step-IsBegun max_taken s h = end_max-IsBegun s.batch s h

pub steps-IsBegun :
    (is : List Input) (s : Batcher) → IsBegun s s.batch → IsBegun (steps is s) (steps is s).batch
unfolding steps
steps-IsBegun [] s h = h
steps-IsBegun (i ∷ is) s h = steps-IsBegun is (step i s) (step-IsBegun i s h)
