-- ===== src/Trading.antt =====
-- Orders, positions and their managers (src/trading/models.py,
-- order_manager.py and position_manager.py).
pub mod Decimal
pub mod Order
pub mod OrderManager
pub mod Position
pub mod PositionManager
pub mod OrderRouter
mod Tests
pub mod Market
pub mod Execution
pub mod LiveEngine
