-- ===== src/Data/Aggregator/Tests.antt =====
-- The theorems about src/data/feed.py at ticks, with whole numbers for decimals.
use algo_engine.Prelude.{refl, ℕ, ◌≡◌, none, some, List, [], ◌∷◌, ◌++◌, String}
use algo_engine.Prelude.Int.{ℤ, pos, ◌+ℤ◌}
use algo_engine.Prelude.Eq.{string_eq}
use algo_engine.Trading.Market.{Tick, mid_price, int_literals}
use algo_engine.Trading.Decimal.{int_decimal, ℤ-IsChain}
use algo_engine.Data.Aggregator.{Batch, minute, new_aggregator, buffer_of}
use algo_engine.Data.Aggregator.Batches.{
  Call, adds, flushes, run, added, ticks_of, batched, run-all,
}
use algo_engine.Data.Aggregator.Bars.{Bar, create_bar, post_init, prices_of}
use algo_engine.Data.Aggregator.Bars.Range.{IsRange, create_bar_lem}

abbrev tick_at : String → ℕ → Tick String ℤ
tick_at s t = record {
  symbol = s;
  timestamp = t;
  bid_price = pos 6;
  ask_price = pos 8;
  bid_size = pos 50;
  ask_size = pos 50;
  last_price = none;
}

abbrev ticks : List (Tick String ℤ)
ticks =
    tick_at "AUDUSD" 1000000
    ∷ record (tick_at "AUDUSD" 2000000) { bid_price = pos 4; ask_price = pos 6 }
    ∷ record (tick_at "AUDUSD" 3000000) { bid_price = pos 8 }
    ∷ []

-- The first three ticks, a flush of one symbol, and the last tick.
abbrev calls : List (Call String ℤ)
calls =
    adds (tick_at "AUDUSD" 1000000)
    ∷ adds (tick_at "EURUSD" 2000000)
    ∷ adds (tick_at "AUDUSD" 61000000)
    ∷ flushes 61500000 (some "AUDUSD")
    ∷ adds (tick_at "AUDUSD" 62000000)
    ∷ []

run-all_example :
    let (bs, a) = run calls (new_aggregator minute) in
    batched "AUDUSD" bs ++ buffer_of "AUDUSD" a ≡ ticks_of "AUDUSD" (added calls)
run-all_example = run-all minute "AUDUSD" calls

abbrev batch : Batch String ℤ
batch = record { symbol = "AUDUSD"; period = 0; ticks = ticks }

create_bar_lem_example :
    (x : Bar String ℤ) × (create_bar minute batch ≡ some x)
    × IsRange (pos 7) (pos 5 ∷ pos 8 ∷ []) x
    × (post_init x ≡ x)
unfolding prices_of mid_price ◌+ℤ◌
create_bar_lem_example = create_bar_lem ℤ-IsChain minute batch (pos 7) (pos 5 ∷ pos 8 ∷ []) refl
