-- ===== src/Messaging/Endings.antt =====
-- How the specification of the dispatcher ends a batch, and which event is sent then.
use osm_edge.Messaging.Events.{ProxyUpdateEvent, proxy_update}
use osm_edge.Messaging.Broker.{
  Input, passes, yields, sliding_taken, max_taken, proxy_update_sliding_window,
  proxy_update_max_window,
}
use osm_edge.Messaging.Batches.{
  Batch, no_batch, holding, Batcher, extended, accept, yielded, end_if, end_sliding, end_max, step,
  steps, elapsed,
}
use osm_edge.Messaging.Times.{step-now, elapsed-cons}
use osm_edge.Base.{
  ℕ, ◌+◌, ◌≤◌, Bool, true, false, Option, none, some, List, [], ◌∷◌, ◌++◌, ◌≡◌, refl, sym, ap, ◌∙◌,
  subst, ◌⊎◌, inl, inr, arith, ◌==◌, nat_comparable, bool_comparable, string_comparable,
  option_comparable, list_comparable, pair_comparable, if◌then◌else◌, leb, Bool-cases, append_assoc,
  append_nil,
}

-- The latest broadcast of a list of inputs, after an event that is pending.
abbrev newer : Option ProxyUpdateEvent → ProxyUpdateEvent → ProxyUpdateEvent
newer none e = e
newer (some d) e = if d.topic == proxy_update then d else e

abbrev received : Input → ProxyUpdateEvent → ProxyUpdateEvent
received (passes n) e = e
received (yields item) e = newer (yielded item) e
received sliding_taken e = e
received max_taken e = e

unfoldable pub latest_broadcast : ProxyUpdateEvent → List Input → ProxyUpdateEvent
latest_broadcast e [] = e
latest_broadcast e (i ∷ is) = latest_broadcast (received i e) is

abbrev pub IsTimer : Input → Type 0
IsTimer i = (i ≡ sliding_taken) ⊎ (i ≡ max_taken)

-- A batch with this event and this first time is held.
abbrev pub Keeps : ProxyUpdateEvent → ℕ → Batcher → Type 0
Keeps e first s = (latest : ℕ) × (s.batch ≡ holding e first latest)

abbrev pub ended : ProxyUpdateEvent → Batcher → Batcher
ended e s = record s { batch = no_batch; sent = s.sent ++ e ∷ [] }

-- A step ends the batch by a timer and sends its event, or the batch stays, with the latest event.
abbrev Moves : Input → ProxyUpdateEvent → ℕ → Batcher → Type 0
Moves i e first s = (IsTimer i × (step i s ≡ ended e s)) ⊎ Keeps (received i e) first (step i s)

accept-Keeps :
    (o : Option ProxyUpdateEvent) (e : ProxyUpdateEvent) (first : ℕ) (s : Batcher)
    → Keeps e first s
    → Keeps (newer o e) first (accept o s)
accept-Keeps none e first s k = k
accept-Keeps (some d) e first s (latest, h) = elim (Bool-cases (d.topic == proxy_update)) [
  | inl t ↦ rw t (s.now, ap (extended d s.now) h)
  | inr t ↦ rw t (latest, h)
]

end_if-Moves :
    (over : Bool) (i : Input) (e : ProxyUpdateEvent) (first : ℕ) (s : Batcher)
    → IsTimer i
    → Keeps e first s
    → (IsTimer i × (end_if over e s ≡ ended e s)) ⊎ Keeps e first (end_if over e s)
end_if-Moves true i e first s t k = inl (t, refl)
end_if-Moves false i e first s t k = inr k

step-Moves :
    (i : Input) (e : ProxyUpdateEvent) (first : ℕ) (s : Batcher)
    → Keeps e first s
    → Moves i e first s
unfolding step
step-Moves (passes n) e first s k = inr k
step-Moves (yields item) e first s k = inr (accept-Keeps (yielded item) e first s k)
step-Moves sliding_taken e first s (latest, h) =
    subst
      (λ batch.
        (IsTimer sliding_taken × (end_sliding batch s ≡ ended e s))
        ⊎ Keeps e first (end_sliding batch s))
      (sym h)
      (end_if-Moves (leb (latest + proxy_update_sliding_window) s.now) sliding_taken e first s
        (inl refl) (latest, h))
step-Moves max_taken e first s (latest, h) =
    subst
      (λ batch.
        (IsTimer max_taken × (end_max batch s ≡ ended e s)) ⊎ Keeps e first (end_max batch s))
      (sym h)
      (end_if-Moves (leb (first + proxy_update_max_window) s.now) max_taken e first s (inr refl)
        (latest, h))

-- Inputs at one of which a timer ends the batch, with the latest event up to there.
pub record Ends (e : ProxyUpdateEvent) (s : Batcher) (is : List Input) : Type 0 where
  pub before : List Input
  pub after : List Input
  pub timer : Input
  pub at : is ≡ before ++ timer ∷ after
  pub is_timer : IsTimer timer
  pub first : ℕ
  pub kept : Keeps (latest_broadcast e before) first (steps before s)
  pub sends : step timer (steps before s) ≡ ended (latest_broadcast e before) (steps before s)

Ends-cons :
    (i : Input) (e : ProxyUpdateEvent) (s : Batcher) (is : List Input)
    → Ends (received i e) (step i s) is
    → Ends e s (i ∷ is)
unfolding latest_broadcast steps
Ends-cons i e s is d = record {
  before = i ∷ d.before;
  after = d.after;
  timer = d.timer;
  at = ap (λ l. i ∷ l) d.at;
  is_timer = d.is_timer;
  first = d.first;
  kept = d.kept;
  sends = d.sends;
}

Ends-here :
    (i : Input) (e : ProxyUpdateEvent) (first : ℕ) (s : Batcher) (is : List Input)
    → Keeps e first s
    → IsTimer i
    → step i s ≡ ended e s
    → Ends e s (i ∷ is)
unfolding latest_broadcast steps
Ends-here i e first s is k t h = record {
  before = [];
  after = is;
  timer = i;
  at = refl;
  is_timer = t;
  first = first;
  kept = k;
  sends = h;
}

leb-true : (a b : ℕ) → a ≤ b → leb a b ≡ true
leb-true a b h = ground arith

-- A batch ends at the latest when its window is over and the timer is taken.
max_taken-ended :
    (e : ProxyUpdateEvent) (first : ℕ) (s : Batcher)
    → Keeps e first s
    → first + proxy_update_max_window ≤ s.now
    → step max_taken s ≡ ended e s
unfolding step
max_taken-ended e first s (latest, h) late =
    ap (λ batch. end_max batch s) h
    ∙ ap (λ over. end_if over e s) (leb-true (first + proxy_update_max_window) s.now late)

pub steps-Ends :
    (is : List Input) (e : ProxyUpdateEvent) (first : ℕ) (s : Batcher)
    → Keeps e first s
    → first + proxy_update_max_window ≤ s.now + elapsed is
    → Ends e s (is ++ max_taken ∷ [])
unfolding elapsed
steps-Ends [] e first s k late =
    Ends-here max_taken e first s [] k (inr refl) (max_taken-ended e first s k (omega arith))
steps-Ends (i ∷ is) e first s k late = elim (step-Moves i e first s k) [
  | inl (t, h) ↦ Ends-here i e first s (is ++ max_taken ∷ []) k t h
  | inr k' ↦ Ends-cons i e s (is ++ max_taken ∷ []) (
      steps-Ends is (received i e) first (step i s) k'
        (omega (arith, step-now i s, elapsed-cons i is)))
]

-- What is sent stays sent.
abbrev pub Adds : Batcher → Batcher → Type 0
Adds s s' = (more : List ProxyUpdateEvent) × (s'.sent ≡ s.sent ++ more)

accept-Adds : (o : Option ProxyUpdateEvent) (s : Batcher) → Adds s (accept o s)
accept-Adds none s = ([], sym (append_nil s.sent))
accept-Adds (some e) s = elim (Bool-cases (e.topic == proxy_update)) [
  | inl t ↦ rw t ([], sym (append_nil s.sent))
  | inr t ↦ rw t (e ∷ [], refl)
]

end_if-Adds : (over : Bool) (e : ProxyUpdateEvent) (s : Batcher) → Adds s (end_if over e s)
end_if-Adds true e s = (e ∷ [], refl)
end_if-Adds false e s = ([], sym (append_nil s.sent))

end_sliding-Adds : (batch : Batch) (s : Batcher) → Adds s (end_sliding batch s)
end_sliding-Adds no_batch s = ([], sym (append_nil s.sent))
end_sliding-Adds (holding e f latest) s =
    end_if-Adds (leb (latest + proxy_update_sliding_window) s.now) e s

end_max-Adds : (batch : Batch) (s : Batcher) → Adds s (end_max batch s)
end_max-Adds no_batch s = ([], sym (append_nil s.sent))
end_max-Adds (holding e f latest) s = end_if-Adds (leb (f + proxy_update_max_window) s.now) e s

step-Adds : (i : Input) (s : Batcher) → Adds s (step i s)
unfolding step
step-Adds (passes n) s = ([], sym (append_nil s.sent))
step-Adds (yields item) s = accept-Adds (yielded item) s
step-Adds sliding_taken s = end_sliding-Adds s.batch s
step-Adds max_taken s = end_max-Adds s.batch s

pub steps-Adds : (is : List Input) (s : Batcher) → Adds s (steps is s)
unfolding steps
steps-Adds [] s = ([], sym (append_nil s.sent))
steps-Adds (i ∷ is) s =
    let (one, h) = step-Adds i s in
    let (more, k) = steps-Adds is (step i s) in
    (one ++ more, k ∙ ap (λ l. l ++ more) h ∙ append_assoc s.sent one more)

pub steps-now : (is : List Input) (s : Batcher) → (steps is s).now ≡ s.now + elapsed is
unfolding steps elapsed
steps-now [] s = omega arith
steps-now (i ∷ is) s = omega (arith, steps-now is (step i s), step-now i s, elapsed-cons i is)
