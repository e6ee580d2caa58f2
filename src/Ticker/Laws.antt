-- ===== src/Ticker/Laws.antt =====
-- How many tickers run, and when the watcher of pkg/ticker/ticker.go waits for ever.
use osm_edge.Ticker.{
  Duration, nanoseconds, Pending, then_watch, ResyncTicker, Input, config_updated, quits, begins,
  receives_stop, ticks, parsed, is_ready, handle, run,
}
use osm_edge.Base.{
  ℕ, ◌<◌, String, Bool, true, false, not, ◌&&◌, Option, some, List, [], ◌∷◌, ◌≡◌, refl, ap, ◌∙◌,
  arith, ◌==◌, nat_comparable, bool_comparable, string_comparable, option_comparable,
  list_comparable, pair_comparable, if◌then◌else◌, leb, is_some,
}

and_false : (a : Bool) {b : Bool} → b ≡ true → (a && not b) ≡ false
and_false a h = ground arith

taken : {A : Type 0} {c : Bool} (a b : A) → c ≡ true → (if c then a else b) ≡ a
taken a b h = ap (λ x. if x then a else b) h

passed : {A : Type 0} {c : Bool} (a b : A) → c ≡ false → (if c then a else b) ≡ b
passed a b h = ap (λ x. if x then a else b) h

too_short : {n : ℕ} → 0 < n → leb n 0 ≡ false
too_short h = ground arith

module _ (min_tick_interval : ℕ) (parse_duration : String → Option Duration) where
  handle-stuck :
      (i : Input) (t : ResyncTicker) (pending : Pending)
      → t.waiting ≡ some pending
      → t.spawned ≡ 0
      → t.ticking ≡ 0
      → handle min_tick_interval parse_duration i t ≡ t
  unfolding handle
  handle-stuck (config_updated old new) t pending w s k =
      rw (and_false t.watching (ap is_some w)) refl
  handle-stuck quits t pending w s k = rw (and_false t.watching (ap is_some w)) refl
  handle-stuck begins t pending w s k = rw (ap (λ n. n == 0) s) refl
  handle-stuck receives_stop t pending w s k = rw (ap (λ n. n == 0) k) refl
  handle-stuck ticks t pending w s k = rw (ap (λ n. n == 0) k) refl

  -- A watcher that waits at the stop channel, with no ticker routine there or spawned, waits for ever.
  run-stuck :
      (is : List Input) (t : ResyncTicker) (pending : Pending)
      → t.waiting ≡ some pending
      → t.spawned ≡ 0
      → t.ticking ≡ 0
      → run min_tick_interval parse_duration is t ≡ t
  unfolding run
  run-stuck [] t pending w s k = refl
  run-stuck (i ∷ is) t pending w s k =
      ap (run min_tick_interval parse_duration is) (handle-stuck i t pending w s k)
      ∙ run-stuck is t pending w s k

  handle-zero_interval :
      (old new : String) (t : ResyncTicker)
      → is_ready t ≡ true
      → 0 < min_tick_interval
      → (old == new) ≡ false
      → (new == "") ≡ false
      → parse_duration new ≡ some (nanoseconds 0)
      → handle min_tick_interval parse_duration (config_updated old new) t
        ≡ record t { waiting = some then_watch }
  unfolding handle
  handle-zero_interval old new t r m d e z =
      taken _ _ r
      ∙ passed _ _ d
      ∙ passed _ _ e
      ∙ ap (parsed min_tick_interval parse_duration t) z
      ∙ passed _ _ (too_short m)

  -- If no ticker runs, an update of the interval to zero blocks the watcher for ever: whatever
  -- follows, no later interval takes effect and nothing is queued.
  pub zero_interval_blocks :
      (old new : String) (is : List Input) (t : ResyncTicker)
      → is_ready t ≡ true
      → t.spawned ≡ 0
      → t.ticking ≡ 0
      → 0 < min_tick_interval
      → (old == new) ≡ false
      → (new == "") ≡ false
      → parse_duration new ≡ some (nanoseconds 0)
      → run min_tick_interval parse_duration (config_updated old new ∷ is) t
        ≡ record t { waiting = some then_watch }
  unfolding run handle
  zero_interval_blocks old new is t r s k m d e z =
      ap (run min_tick_interval parse_duration is) (handle-zero_interval old new t r m d e z)
      ∙ run-stuck is (record t { waiting = some then_watch }) then_watch refl s k
