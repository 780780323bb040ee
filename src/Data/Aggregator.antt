-- ===== src/Data/Aggregator.antt =====
-- `DataAggregator` of src/data/feed.py. Times are microseconds from a midnight of the clock that the ticks
-- carry, so a period starts at a multiple of its length.
pub mod Batches
pub mod Bars
mod Tests
use algo_engine.Prelude.{
  ℕ, ◌+◌, ◌-◌, ◌%◌, Bool, true, false, not, ◌&&◌, Option, none, some, List, [], ◌∷◌, ◌++◌, ltb,
  if◌then◌else◌, map,
}
use algo_engine.Prelude.Eq.{Eq, ◌=?◌}
use algo_engine.Prelude.Dict.{Dict, lookup, get_or, insert}
use algo_engine.Trading.Market.{Tick}

pub data Resolution : Type 0 where
  tick second minute hour daily weekly monthly : Resolution

pub record DataAggregator (S D : Type 0) : Type 0 where
  pub resolution : Resolution
  pub buffers : Dict S (List (Tick S D))
  pub last_bar_time : Dict S ℕ

-- The ticks that a bar is made from, with the start of its period.
pub record Batch (S D : Type 0) : Type 0 where
  pub symbol : S
  pub period : ℕ
  pub ticks : List (Tick S D)

-- `_get_period_start`
unfoldable pub get_period_start : Resolution → ℕ → ℕ
get_period_start minute t = t - t % 60000000
get_period_start hour t = t - t % 3600000000
get_period_start daily t = t - t % 86400000000
get_period_start _ t = t

abbrev pub has_ticks : {A : Type 0} → List A → Bool
has_ticks [] = false
has_ticks (x ∷ xs) = true

module _ {S D : Type 0} where
  -- `DataAggregator.__init__`
  unfoldable pub new_aggregator : Resolution → DataAggregator S D
  new_aggregator r = record { resolution = r; buffers = []; last_bar_time = [] }

module _ {S D : Type 0} ⦃eq : Eq S⦄ where
  abbrev pub buffer_of : S → DataAggregator S D → List (Tick S D)
  buffer_of s a = get_or s [] a.buffers

  abbrev pub put_buffer : Tick S D → List (Tick S D) → DataAggregator S D → DataAggregator S D
  put_buffer t ts a = record a {
    buffers = insert t.symbol ts a.buffers;
    last_bar_time = insert t.symbol t.timestamp a.last_bar_time;
  }

  -- Whether a tick ends the period of its symbol's last one.
  unfoldable pub ends_period : Tick S D → DataAggregator S D → Option ℕ
  unfolding get_period_start
  ends_period t a = elim (lookup t.symbol a.last_bar_time) [
    | none ↦ none
    | some last ↦
        let last_period = get_period_start a.resolution last in
        if ltb last_period (get_period_start a.resolution t.timestamp)
          && has_ticks (buffer_of t.symbol a)
        then some last_period
        else none
  ]

  -- `add_tick`, with the ticks of the bar that it returns.
  unfoldable pub add_tick : Tick S D → DataAggregator S D → List (Batch S D) × DataAggregator S D
  unfolding ends_period
  add_tick t a = elim (ends_period t a) [
    | none ↦ ([], put_buffer t (buffer_of t.symbol a ++ (t ∷ [])) a)
    | some p ↦ (
      record { symbol = t.symbol; period = p; ticks = buffer_of t.symbol a } ∷ [],
      put_buffer t (t ∷ []) a,
    )
  ]

  -- The loop of `flush`; `now` is for a symbol without a last time.
  unfoldable pub flush_each :
      ℕ → List S → DataAggregator S D → List (Batch S D) × DataAggregator S D
  unfolding get_period_start
  flush_each now [] a = ([], a)
  flush_each now (s ∷ ss) a =
      let emptied : DataAggregator S D = record a { buffers = insert s [] a.buffers } in
      let batch : Batch S D = record {
        symbol = s;
        period = get_period_start a.resolution (get_or s now a.last_bar_time);
        ticks = buffer_of s a;
      } in
      let rest = flush_each now ss (if has_ticks (buffer_of s a) then emptied else a) in
      if has_ticks (buffer_of s a) then (batch ∷ rest.0, rest.1) else rest

  -- `flush` of a symbol, or of all.
  unfoldable pub flush : ℕ → Option S → DataAggregator S D → List (Batch S D) × DataAggregator S D
  unfolding flush_each
  flush now none a = flush_each now (map (λ p. p.0) a.buffers) a
  flush now (some s) a = flush_each now (s ∷ []) a
