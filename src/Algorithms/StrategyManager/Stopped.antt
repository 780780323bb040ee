-- ===== src/Algorithms/StrategyManager/Stopped.antt =====
-- Starting all strategies after stopping them all (src/algorithms/strategy_manager.py).
use algo_engine.Prelude.{◌≡◌, refl, [], ◌∷◌, String, length, arith}
use algo_engine.Prelude.Dict.{Dict}
use algo_engine.Algorithms.Strategy.{Strategy, start, stop}
use algo_engine.Algorithms.StrategyManager.{
  StrategyManager, start_each, stop_each, start_all, stop_all, get_running,
}

module _ {S D : Type 0} where
  start_each-stop_each :
      (ss : Dict String (Strategy S D))
      → ((start_each (stop_each ss).1).0 ≡ length ss)
        × (get_running (start_each (stop_each ss).1).1 ≡ [])
  unfolding start_each stop_each start stop get_running
  start_each-stop_each [] = (refl, refl)
  start_each-stop_each ((id, s) ∷ ss) = ground (arith, start_each-stop_each ss)

  -- Once all strategies are stopped, starting them all starts none: no strategy is running, while
  -- the count of started strategies that is returned is the number of all strategies.
  pub start_all-stop_all :
      (m : StrategyManager S D)
      → let (n, m') = start_all (stop_all m).1 in
        (n ≡ length m.strategies) × (get_running m'.strategies ≡ [])
  unfolding start_all stop_all
  start_all-stop_all m = start_each-stop_each m.strategies
