-- ===== src/Resilience/Handler/Counts.antt =====
-- What `ErrorHandler.handle` of src/utils/error_handler.py reports and records.
use algo_engine.Prelude.{
  ℕ, ◌+◌, ◌≤◌, ◌<◌, ◌≡◌, true, false, some, List, String, arith, if◌then◌else◌,
}
use algo_engine.Prelude.Eq.{◌=?◌, string_eq, beq_refl}
use algo_engine.Prelude.Dict.{lookup, get_or, lookup-insert}
use algo_engine.Resilience.Exceptions.{Exception, ErrorCategory, transient, categorize_exception}
use algo_engine.Resilience.Breaker.{CircuitBreaker, closed, opened, record_failure, is_active}
use algo_engine.Resilience.Handler.{ErrorHandler, handle, should_retry}

-- Handling an error counts it under its context and under no other, whatever becomes of it.
pub handle_counts :
    (exc : Exception) (context j : String) (extra : List String) (clock : ℕ × ℕ × ℕ)
    (h : ErrorHandler)
    → let counts = (handle exc context extra clock h).1.error_counts in
      lookup j counts ≡ (
        if context =? j
        then some (get_or context 0 h.error_counts + 1)
        else lookup j h.error_counts)
unfolding handle
handle_counts exc context j extra clock h =
    ground (arith, lookup-insert context j (get_or context 0 h.error_counts + 1) h.error_counts)

-- Handling an error under one context leaves the breaker of any other as it is.
pub handle_other_breakers :
    (exc : Exception) (context j : String) (extra : List String) (clock : ℕ × ℕ × ℕ)
    (h : ErrorHandler)
    → (context =? j) ≡ false
    → lookup j (handle exc context extra clock h).1.circuit_breakers ≡ lookup j h.circuit_breakers
unfolding handle
handle_other_breakers exc context j extra clock h other = grind (arith, lookup-insert)

-- The breaker that is stored under a context afterwards.
abbrev pub Stores : String → ErrorHandler → (CircuitBreaker → Type 0) → Type 0
Stores context h P = (c : CircuitBreaker) × (lookup context h.circuit_breakers ≡ some c) × P c

module _ (exc : Exception) (context : String) (extra : List String) (clock : ℕ × ℕ × ℕ)
    (h : ErrorHandler) (b : CircuitBreaker) (named : (context =? "") ≡ false)
    (known : lookup context h.circuit_breakers ≡ some b) where
  -- Under a named context with a CLOSED breaker, a transient error that stays below the failure
  -- threshold may be retried, and the breaker stays CLOSED and has counted it.
  pub handle_below :
      categorize_exception exc extra ≡ transient
      → b.stats.state ≡ closed
      → b.stats.failure_count + 1 < b.config.failure_threshold
      → let (r, h') = handle exc context extra clock h in
        (should_retry r ≡ true)
        × (r.category ≡ transient)
        × Stores context h'
            (λ c. (c.stats.state ≡ closed) × (c.stats.failure_count ≡ b.stats.failure_count + 1))
  unfolding handle record_failure is_active should_retry
  handle_below t fine low =
      let c = (is_active clock.2 (record_failure clock.0 clock.1 b)).0 in
      let stored = lookup-insert context context c h.circuit_breakers in
      let same = beq_refl context in
      (ground arith, ground arith, (c, ground arith, (ground arith, ground arith)))

  -- Under a named context with a CLOSED breaker, a transient error that reaches the failure
  -- threshold opens the breaker; where the handler then asks within the cooldown, the error is
  -- reported as a circuit-breaker error that is not to be retried.
  pub handle_reached :
      categorize_exception exc extra ≡ transient
      → b.stats.state ≡ closed
      → b.config.failure_threshold ≤ b.stats.failure_count + 1
      → clock.2 < clock.1 + b.config.cooldown
      → let (r, h') = handle exc context extra clock h in
        (should_retry r ≡ false)
        × (r.category ≡ ErrorCategory.circuit_breaker)
        × Stores context h' (λ c. (c.stats.state ≡ opened) × (c.stats.opened_at ≡ some clock.1))
  unfolding handle record_failure is_active should_retry
  handle_reached t fine high soon =
      let c = (is_active clock.2 (record_failure clock.0 clock.1 b)).0 in
      let stored = lookup-insert context context c h.circuit_breakers in
      let same = beq_refl context in
      (ground arith, ground arith, (c, ground arith, (ground arith, ground arith)))
