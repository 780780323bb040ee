-- ===== src/Algorithms/StrategyManager.antt =====
-- `StrategyManager` of src/algorithms/strategy_manager.py. A class of strategies is the list of symbols
-- of its strategies' configuration; the id of a new strategy is an argument.
pub mod Stopped
use algo_engine.Prelude.{
  ℕ, ◌+◌, Bool, true, false, not, Option, none, some, List, [], ◌∷◌, ◌++◌, String, if◌then◌else◌,
  length, map,
}
use algo_engine.Prelude.Eq.{Eq, ◌=?◌, string_eq}
use algo_engine.Prelude.Dict.{Dict, lookup, insert, erase, contains}
use algo_engine.Algorithms.Strategy.{Strategy, new_strategy, is_running, start, pause, resume, stop}

pub record StrategyManager (S D : Type 0) : Type 0 where
  pub strategies : Dict String (Strategy S D)
  -- the symbols of each configuration
  pub strategy_configs : Dict String (List S)
  pub strategy_classes : Dict String ℕ

-- How `remove_strategy` ends; `key_error` is the exception of a missing configuration.
pub data Removal : Type 0 where
  removed not_there key_error : Removal

module _ {S D : Type 0} where
  unfoldable pub new_strategies : StrategyManager S D
  new_strategies = record { strategies = []; strategy_configs = []; strategy_classes = [] }

  unfoldable pub register_strategy_class : String → ℕ → StrategyManager S D → StrategyManager S D
  register_strategy_class name c m = record m {
    strategy_classes = insert name c m.strategy_classes;
  }

  -- `create_strategy`, with the id that the new strategy gets.
  unfoldable pub create_strategy :
      String → String → List S → StrategyManager S D → Bool × StrategyManager S D
  unfolding new_strategy
  create_strategy id name symbols m =
      if contains name m.strategy_classes
      then (
        true,
        record m {
          strategies = insert id (new_strategy id symbols) m.strategies;
          strategy_configs = insert id symbols m.strategy_configs;
        },
      )
      else (false, m)

  unfoldable pub add_strategy : Strategy S D → StrategyManager S D → StrategyManager S D
  add_strategy s m = record m { strategies = insert s.strategy_id s m.strategies }

  -- `remove_strategy`
  unfoldable pub remove_strategy : String → StrategyManager S D → Removal × StrategyManager S D
  remove_strategy id m =
      if not (contains id m.strategies)
      then (not_there, m)
      else (let m' = record m { strategies = erase id m.strategies } in
          if contains id m.strategy_configs
          then (removed, record m' { strategy_configs = erase id m.strategy_configs })
          else (key_error, m'))

  -- A change of the strategy of an id, if there is one.
  abbrev pub change_one :
      (Strategy S D → Strategy S D) → String → StrategyManager S D → Bool × StrategyManager S D
  change_one f id m = elim (lookup id m.strategies) [
    | none ↦ (false, m)
    | some s ↦ (true, record m { strategies = insert id (f s) m.strategies })
  ]

  -- `start_strategy`, `stop_strategy`, `pause_strategy` and `resume_strategy`
  unfoldable pub start_strategy : String → StrategyManager S D → Bool × StrategyManager S D
  unfolding start
  start_strategy id m = change_one start id m

  unfoldable pub stop_strategy : String → StrategyManager S D → Bool × StrategyManager S D
  unfolding stop
  stop_strategy id m = change_one stop id m

  unfoldable pub pause_strategy : String → StrategyManager S D → Bool × StrategyManager S D
  unfolding pause
  pause_strategy id m = change_one pause id m

  unfoldable pub resume_strategy : String → StrategyManager S D → Bool × StrategyManager S D
  unfolding resume
  resume_strategy id m = change_one resume id m

  -- The loops of `start_all`, `stop_all` and `pause_all`.
  unfoldable pub start_each : Dict String (Strategy S D) → ℕ × Dict String (Strategy S D)
  unfolding start
  start_each [] = (0, [])
  start_each ((id, s) ∷ ss) =
      let (n, rest) = start_each ss in
      if is_running s then (n, (id, s) ∷ rest) else (n + 1, (id, start s) ∷ rest)

  unfoldable pub stop_each : Dict String (Strategy S D) → ℕ × Dict String (Strategy S D)
  unfolding stop
  stop_each [] = (0, [])
  stop_each ((id, s) ∷ ss) = let (n, rest) = stop_each ss in (n + 1, (id, stop s) ∷ rest)

  unfoldable pub pause_each : Dict String (Strategy S D) → ℕ × Dict String (Strategy S D)
  unfolding pause
  pause_each [] = (0, [])
  pause_each ((id, s) ∷ ss) =
      let (n, rest) = pause_each ss in
      if is_running s then (n + 1, (id, pause s) ∷ rest) else (n, (id, s) ∷ rest)

  unfoldable pub start_all : StrategyManager S D → ℕ × StrategyManager S D
  unfolding start_each
  start_all m = let (n, ss) = start_each m.strategies in (n, record m { strategies = ss })

  unfoldable pub stop_all : StrategyManager S D → ℕ × StrategyManager S D
  unfolding stop_each
  stop_all m = let (n, ss) = stop_each m.strategies in (n, record m { strategies = ss })

  unfoldable pub pause_all : StrategyManager S D → ℕ × StrategyManager S D
  unfolding pause_each
  pause_all m = let (n, ss) = pause_each m.strategies in (n, record m { strategies = ss })

  -- `get_running_strategies`
  unfoldable pub get_running : Dict String (Strategy S D) → List (Strategy S D)
  get_running [] = []
  get_running ((id, s) ∷ ss) = let rest = get_running ss in if is_running s then s ∷ rest else rest
