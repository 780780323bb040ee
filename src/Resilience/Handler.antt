-- ===== src/Resilience/Handler.antt =====
-- `ErrorHandler` of src/utils/error_handler.py: error counts and circuit breakers by context. The
-- empty context `""` has no breaker. Every reading of the clock is an argument.
pub mod Counts
use algo_engine.Prelude.{
  ℕ, zero, suc, ◌+◌, ◌≡◌, refl, Bool, true, false, not, ◌&&◌, Option, none, some, List, [], ◌∷◌,
  String, arith, if◌then◌else◌, ◌==◌,
}
use algo_engine.Prelude.Eq.{◌=?◌, string_eq}
use algo_engine.Prelude.Dict.{Dict, lookup, get_or, insert}
use algo_engine.Resilience.Exceptions.{
  Exception, ErrorCategory, transient, permanent, circuit_breaker, categorize_exception,
}
use algo_engine.Resilience.Breaker.{
  CircuitBreaker, CircuitBreakerConfig, new_breaker, record_failure, is_active,
}
use algo_engine.Resilience.Retry.{Surroundings, Run, retry_async}

-- `ErrorHandlerConfig`, with the one setting of `RetryConfig` that changes what is called.
pub record ErrorHandlerConfig : Type 0 where
  pub max_attempts : ℕ
  pub circuit_breaker : CircuitBreakerConfig

pub record ErrorHandler : Type 0 where
  pub config : ErrorHandlerConfig
  pub circuit_breakers : Dict String CircuitBreaker
  pub error_counts : Dict String ℕ

pub record ErrorResult : Type 0 where
  pub category : ErrorCategory
  pub exception : Exception
  pub retries_exhausted : Bool
  pub circuit_open : Bool

is_transient : ErrorCategory → Bool
is_transient transient = true
is_transient permanent = false
is_transient ErrorCategory.circuit_breaker = false

-- `ErrorResult.should_retry`
unfoldable pub should_retry : ErrorResult → Bool
unfolding is_transient
should_retry r = is_transient r.category && (not r.retries_exhausted && not r.circuit_open)

-- `get_circuit_breaker`: the breaker under a name, made if there is none.
unfoldable pub get_circuit_breaker : String → ErrorHandler → CircuitBreaker × ErrorHandler
get_circuit_breaker name h = elim (lookup name h.circuit_breakers) [
  | some b ↦ (b, h)
  | none ↦
      let b = new_breaker (h.config.circuit_breaker) name in
      (b, record h { circuit_breakers = insert name b h.circuit_breakers })
]

unfoldable pub count_error : String → ErrorHandler → ErrorHandler
count_error context h = record h {
  error_counts = insert context (get_or context 0 h.error_counts + 1) h.error_counts;
}

put_breaker : String → CircuitBreaker → ErrorHandler → ErrorHandler
put_breaker name b h = record h { circuit_breakers = insert name b h.circuit_breakers }

plain_result : ErrorCategory → Exception → ErrorResult
plain_result cat exc = record {
  category = cat;
  exception = exc;
  retries_exhausted = false;
  circuit_open = false;
}

open_result : Exception → ErrorResult
open_result exc = record {
  category = ErrorCategory.circuit_breaker;
  exception = exc;
  retries_exhausted = false;
  circuit_open = true;
}

-- The part of `handle` for a transient error under a named context: the failure is recorded and
-- the breaker asked, which may move it on; `clock` has the two readings of the one and then that of
-- the other.
trip_check :
    String → ℕ × ℕ × ℕ → Exception → CircuitBreaker → ErrorHandler → ErrorResult × ErrorHandler
unfolding put_breaker plain_result open_result
trip_check context clock exc b h =
    let (c, active) = is_active clock.2 (record_failure clock.0 clock.1 b) in
    (if active then open_result exc else plain_result transient exc, put_breaker context c h)

-- What `handle` does once the error is counted.
consult : ErrorCategory → String → ℕ × ℕ × ℕ → Exception → ErrorHandler → ErrorResult × ErrorHandler
unfolding get_circuit_breaker trip_check is_transient plain_result
consult cat context clock exc h =
    if context =? ""
    then (plain_result cat exc, h)
    else let (b, h') = get_circuit_breaker context h in
      if is_transient cat then trip_check context clock exc b h' else (plain_result cat exc, h')

unfoldable pub handle :
    Exception → String → List String → ℕ × ℕ × ℕ → ErrorHandler → ErrorResult × ErrorHandler
unfolding consult count_error
handle exc context extra_transient clock h =
    consult (categorize_exception exc extra_transient) context clock exc (count_error context h)

-- `ErrorHandler.execute`: `retry_async` with the breaker of the context.
unfoldable pub execute {ℓ} :
    {A : Type ℓ} → Surroundings A → String → List String → ErrorHandler → Run A × ErrorHandler
unfolding get_circuit_breaker put_breaker
execute s context extra_transient h =
    if context =? ""
    then (retry_async s (h.config.max_attempts) extra_transient none, h)
    else let (b, h') = get_circuit_breaker context h in
      let r = retry_async s (h.config.max_attempts) extra_transient (some b) in
      (r, elim (r.breaker) [ none ↦ h' | some c ↦ put_breaker context c h' ])
