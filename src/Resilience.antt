-- ===== src/Resilience.antt =====
-- Error handling: exceptions and their classes, the circuit breaker, the retry loop and the
-- façade over them (src/utils/error_handler.py).
pub mod Exceptions
pub mod Breaker
pub mod Retry
pub mod Handler
mod Tests
