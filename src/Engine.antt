-- ===== src/Engine.antt =====
-- The engine and its event bus (src/engine/events.py and engine.py).
pub mod Events
pub mod Lifecycle
mod Tests
