-- ===== src/Algorithms.antt =====
-- Strategies (src/algorithms/strategy.py and strategy_manager.py).
pub mod Strategy
pub mod StrategyManager
mod Tests
