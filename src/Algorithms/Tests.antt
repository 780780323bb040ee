-- ===== src/Algorithms/Tests.antt =====
-- The theorems about src/algorithms at inputs that meet their hypotheses, with whole numbers for decimals.
use algo_engine.Prelude.{◌≡◌, refl, List, [], ◌∷◌, String, length}
use algo_engine.Prelude.Int.{ℤ, pos}
use algo_engine.Prelude.Eq.{string_eq}
use algo_engine.Data.Aggregator.{minute}
use algo_engine.Data.Aggregator.Bars.{Bar}
use algo_engine.Algorithms.Strategy.{Strategy, running, stopped, no_order, submit_order}
use algo_engine.Algorithms.Strategy.Terminal.{
  Event, starts, resumes, gets_bar, happen_all, happen_all_stopped,
}
use algo_engine.Algorithms.StrategyManager.{StrategyManager, start_all, stop_all, get_running}
use algo_engine.Algorithms.StrategyManager.Stopped.{start_all-stop_all}

abbrev strategy : Strategy String ℤ
strategy = record {
  strategy_id = "STRAT_1";
  symbols = "AUDUSD" ∷ [];
  state = running;
  bars = ("AUDUSD", []) ∷ [];
  latest_ticks = [];
  fill_handlers = [];
  called = [];
}

abbrev bar : Bar String ℤ
bar = record {
  symbol = "AUDUSD";
  timestamp = 60;
  open_price = pos 6;
  high = pos 8;
  low = pos 5;
  close = pos 7;
  volume = pos 100;
  resolution = minute;
}

abbrev ended : Strategy String ℤ
ended = record strategy { state = stopped }

abbrev events : List (Event String ℤ)
events = resumes ∷ gets_bar bar ∷ starts ∷ gets_bar bar ∷ []

happen_all_stopped_example :
    ((happen_all events ended).state ≡ stopped)
    × ((happen_all events ended).bars ≡ ended.bars)
    × ((happen_all events ended).latest_ticks ≡ ended.latest_ticks)
    × (submit_order (happen_all events ended) ≡ no_order)
happen_all_stopped_example = happen_all_stopped events ended refl

abbrev manager : StrategyManager String ℤ
manager = record {
  strategies = ("STRAT_1", strategy) ∷ ("STRAT_2", ended) ∷ [];
  strategy_configs = [];
  strategy_classes = [];
}

start_all-stop_all_example :
    let (n, m') = start_all (stop_all manager).1 in
    (n ≡ length manager.strategies) × (get_running m'.strategies ≡ [])
start_all-stop_all_example = start_all-stop_all manager
