-- ===== src/Messaging/Windows.antt =====
-- The two timers of the dispatcher of pkg/messaging/broker.go, as the batch determines them.
use osm_edge.Messaging.Events.{ProxyUpdateEvent}
use osm_edge.Messaging.Broker.{
  Timer, armed, fired, Turn, goes_on, not_ready, ◌>>=◌, expire, restart, Dispatcher, Broker, hold,
  receive, dispatch, take_sliding, take_max, or_stays, no_timeout, proxy_update_sliding_window,
  proxy_update_max_window,
}
use osm_edge.Messaging.Batches.{Batch, no_batch, holding, Batcher, extended, end_if}
use osm_edge.Base.{
  ℕ, ◌+◌, ◌≤◌, ◌<◌, true, false, [], ◌∷◌, ◌++◌, ◌≡◌, refl, ap, ◌∙◌, inl, inr, arith, nat_comparable,
  bool_comparable, string_comparable, option_comparable, list_comparable, pair_comparable,
  if◌then◌else◌, leb, Bool-cases,
}

-- A timer that runs for a decade.
abbrev pub IsIdle : Timer → Type 0
IsIdle t = (x : ℕ) × (t ≡ armed x) × (no_timeout ≤ x)

-- The timers and variables of the dispatcher, given the batch.
abbrev pub Holds : ℕ → Batch → Dispatcher → Type 0
Holds now no_batch d = (d.dispatch_pending ≡ false) × IsIdle d.sliding_timer × IsIdle d.max_timer
Holds now (holding e first latest) d =
    (d.dispatch_pending ≡ true)
    × (d.event ≡ e)
    × (d.sliding_timer ≡ expire now (armed (latest + proxy_update_sliding_window)))
    × (d.max_timer ≡ expire now (armed (first + proxy_update_max_window)))

pub record Represents (s : Batcher) (b : Broker) : Type 0 where
  pub same_now : b.now ≡ s.now
  pub same_sent : b.published ≡ s.sent
  pub held : Holds s.now s.batch b.dispatcher

pub expire_twice :
    (now n x : ℕ) → expire (now + n) (expire now (armed x)) ≡ expire (now + n) (armed x)
expire_twice now n x = ground arith

pub expire_early : (now x : ℕ) → now < x → expire now (armed x) ≡ armed x
expire_early now x h = ground arith

pub expire-IsIdle : (now : ℕ) (t : Timer) → now < no_timeout → IsIdle t → IsIdle (expire now t)
expire-IsIdle now t h (x, e, k) = (x, ap (expire now) e ∙ expire_early now x (omega arith), k)

pub restart-expire :
    (deadline now x : ℕ) → restart deadline (expire now (armed x)) ≡ goes_on (armed deadline)
restart-expire deadline now x = ground arith

pub pass-Holds :
    (now n : ℕ) (batch : Batch) (d : Dispatcher)
    → now + n < no_timeout
    → Holds now batch d
    → Holds (now + n) batch (record d {
      sliding_timer = expire (now + n) d.sliding_timer;
      max_timer = expire (now + n) d.max_timer;
    })
pass-Holds now n no_batch d h (p, s, m) =
    (p, expire-IsIdle (now + n) d.sliding_timer h s, expire-IsIdle (now + n) d.max_timer h m)
pass-Holds now n (holding e first latest) d h (p, q, s, m) = (
  p,
  q,
  ap (expire (now + n)) s ∙ expire_twice now n (latest + proxy_update_sliding_window),
  ap (expire (now + n)) m ∙ expire_twice now n (first + proxy_update_max_window),
)

pub receive-Holds :
    (now : ℕ) (e : ProxyUpdateEvent) (batch : Batch) (d : Dispatcher)
    → Holds now batch d
    → (d' : Dispatcher) × (receive now e d ≡ goes_on d') × Holds now (extended e now batch) d'
unfolding receive
receive-Holds now e no_batch d (p, (x, s, _), (y, m, _)) = (
  hold e d (armed (now + proxy_update_sliding_window)) (armed (now + proxy_update_max_window)),
  ground arith,
  (refl, refl, ground arith, ground arith),
)
receive-Holds now e (holding e' first latest) d (p, q, s, m) = (
  hold e d (armed (now + proxy_update_sliding_window)) d.max_timer,
  ground (
    arith,
    restart-expire (now + proxy_update_sliding_window) now (latest + proxy_update_sliding_window),
  ),
  (refl, refl, ground arith, m),
)

-- The turn is taken or passed over, and the broker after it represents the batcher.
abbrev pub Follows : Batcher → Broker → Turn Broker → Type 0
Follows s b t = (b' : Broker) × (or_stays b t ≡ goes_on b') × Represents s b'

-- What is left when a timer is taken.
abbrev pub IsEnded : Broker → Turn Broker → Type 0
IsEnded b t =
    (sliding : Timer) × (max : Timer) × (t ≡ goes_on (dispatch b sliding max))
    × IsIdle sliding
    × IsIdle max

pub IsIdle-later : (now : ℕ) → IsIdle (armed (now + no_timeout))
IsIdle-later now = (now + no_timeout, refl, omega arith)

pub IsEnded-Follows :
    (s : Batcher) (b : Broker) (t : Turn Broker) (e : ProxyUpdateEvent)
    → Represents s b
    → b.dispatcher.event ≡ e
    → IsEnded b t
    → Follows (record s { batch = no_batch; sent = s.sent ++ e ∷ [] }) b t
IsEnded-Follows s b t e r q (sliding, max, h, idle_sliding, idle_max) = (
  dispatch b sliding max,
  ap (or_stays b) h,
  record {
    same_now = r.same_now;
    same_sent = ap (λ l. l ++ b.dispatcher.event ∷ []) r.same_sent ∙ ap (λ x. s.sent ++ x ∷ []) q;
    held = (refl, idle_sliding, idle_max);
  },
)

pub take_sliding-IsEnded :
    (b : Broker) (x : ℕ)
    → b.dispatcher.max_timer ≡ expire b.now (armed x)
    → IsEnded b (take_sliding b fired)
unfolding take_sliding
take_sliding-IsEnded b x h = (
  armed (b.now + no_timeout),
  armed (b.now + no_timeout),
  ap (λ r. r >>= (λ max. goes_on (dispatch b (armed (b.now + no_timeout)) max)))
      (ap (restart (b.now + no_timeout)) h ∙ restart-expire (b.now + no_timeout) b.now x),
  IsIdle-later b.now,
  IsIdle-later b.now,
)

pub take_max-IsEnded :
    (b : Broker) (x : ℕ)
    → b.dispatcher.sliding_timer ≡ expire b.now (armed x)
    → IsEnded b (take_max b fired)
unfolding take_max
take_max-IsEnded b x h = (
  armed (b.now + no_timeout),
  armed (b.now + no_timeout),
  ap (λ r. r >>= (λ sliding. goes_on (dispatch b sliding (armed (b.now + no_timeout)))))
      (ap (restart (b.now + no_timeout)) h ∙ restart-expire (b.now + no_timeout) b.now x),
  IsIdle-later b.now,
  IsIdle-later b.now,
)

-- A timer of a batch is taken exactly when it is over.
pub taken-Follows :
    (s : Batcher) (b : Broker) (take : Timer → Turn Broker) (t : Timer) (x : ℕ)
    (e : ProxyUpdateEvent)
    → Represents s b
    → b.dispatcher.event ≡ e
    → t ≡ expire s.now (armed x)
    → IsEnded b (take fired)
    → ((y : ℕ) → take (armed y) ≡ not_ready)
    → Follows (end_if (leb x s.now) e s) b (take t)
taken-Follows s b take t x e r q h ended early = elim (Bool-cases (leb x s.now)) [
  | inl over ↦
      let is_fired : take t ≡ take fired =
        ap take (h ∙ ap (λ c. if c then fired else armed x) over) in
      rw over (
        IsEnded-Follows s b (take t) e r q (ended.0, ended.1, is_fired ∙ ended.2, ended.3, ended.4))
  | inr later ↦
      let is_armed : take t ≡ not_ready =
        ap take (h ∙ ap (λ c. if c then fired else armed x) later) ∙ early x in
      rw later (b, ap (or_stays b) is_armed, r)
]

pub idle-Follows :
    (s : Batcher) (b : Broker) (take : Timer → Turn Broker) (t : Timer)
    → Represents s b
    → IsIdle t
    → ((y : ℕ) → take (armed y) ≡ not_ready)
    → Follows s b (take t)
idle-Follows s b take t r (x, h, _) early = (b, ap (or_stays b) (ap take h ∙ early x), r)
