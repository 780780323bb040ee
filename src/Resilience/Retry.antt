-- ===== src/Resilience/Retry.antt =====
-- `retry_async` of src/utils/error_handler.py, with the optional circuit breaker. What the protected
-- function does is a function of the number of the attempt; what other tasks do to the breaker
-- while this one awaits is a parameter too. A sleep is recorded by the attempt that it follows.
pub mod Loop
pub mod Answers
use algo_engine.Prelude.{
  ℕ, zero, suc, ◌+◌, ◌≡◌, refl, Bool, true, false, not, ◌&&◌, Option, none, some, List, [], ◌∷◌,
  String, arith, if◌then◌else◌, ◌==◌,
}
use algo_engine.Resilience.Exceptions.{
  Exception, ErrorCategory, transient, permanent, circuit_breaker, isinstance, categorize_exception,
}
use algo_engine.Resilience.Breaker.{CircuitBreaker, admit, settle}

-- How one awaited call ends.
pub data Attempt {ℓ} (A : Type ℓ) : Type ℓ where
  returned : A → Attempt A
  raised : Exception → Attempt A

-- How `retry_async` ends: it returns, lets an exception through, raises `RetryExhaustedError`, or
-- fails its assertion.
pub data Outcome {ℓ} (A : Type ℓ) : Type ℓ where
  value : A → Outcome A
  propagated : Exception → Outcome A
  retry_exhausted : ℕ → Exception → Outcome A
  assertion_failed : Outcome A

pub record Run {ℓ} (A : Type ℓ) : Type ℓ where
  pub outcome : Outcome A
  pub breaker : Option CircuitBreaker
  pub called : List ℕ
  pub slept : List ℕ

-- The protected call and its surroundings, by the number of the attempt: the readings of the clock
-- at the admission and in the two steps of the settlement, and what other tasks do to the breaker.
pub record Surroundings {ℓ} (A : Type ℓ) : Type ℓ where
  pub fn : ℕ → Attempt A
  pub clock : ℕ → ℕ × ℕ × ℕ
  pub while_running : ℕ → CircuitBreaker → CircuitBreaker
  pub while_sleeping : ℕ → CircuitBreaker → CircuitBreaker

abbrev pub breaker_open_error : Exception
breaker_open_error = record {
  mro = "CircuitBreakerOpenError" ∷ "Exception" ∷ "BaseException" ∷ "object" ∷ [];
  status_code = none;
  status = none;
}

succeeded {ℓ} : {A : Type ℓ} → Attempt A → Bool
succeeded (returned a) = true
succeeded (raised e) = false

-- One attempt as the loop sees it: how it ended, the breaker after it, and whether `fn` was called.
pub record Tried {ℓ} (A : Type ℓ) : Type ℓ where
  pub ended : Attempt A
  pub breaker : Option CircuitBreaker
  pub ran : Bool

is_permanent : ErrorCategory → Bool
is_permanent transient = false
is_permanent permanent = true
is_permanent circuit_breaker = false

-- What the handlers of the `try` make of an attempt's end: `some` leaves the loop.
unfoldable pub judge {ℓ} : {A : Type ℓ} → ℕ → ℕ → List String → Attempt A → Option (Outcome A)
unfolding is_permanent
judge attempt max_attempts extra (returned a) = some (value a)
judge attempt max_attempts extra (raised e) =
    if isinstance e ("CircuitBreakerOpenError" ∷ [])
    then some (propagated e)
    else if not (isinstance e ("Exception" ∷ []))
    then some (propagated e)
    else if is_permanent (categorize_exception e extra)
        && not (isinstance e ("RetryableError" ∷ []))
    then some (propagated e)
    else if attempt == max_attempts
    then some (retry_exhausted attempt e)
    else none

module _ {ℓ} {A : Type ℓ} (s : Surroundings A) where
  -- `CircuitBreaker.execute`, in a quiet row: admission, the call, the settlement.
  unfoldable pub execute : ℕ → CircuitBreaker → Tried A
  unfolding succeeded
  execute attempt b =
      let (c, allowed) = admit (s.clock attempt).0 b in
      if allowed
      then record {
        ended = s.fn attempt;
        breaker = some (
            settle (succeeded (s.fn attempt)) (s.clock attempt).1 (s.clock attempt).2
              (s.while_running attempt c));
        ran = true;
      }
      else record { ended = raised breaker_open_error; breaker = some c; ran = false }

  -- The body of the `try`.
  unfoldable pub try_once : ℕ → Option CircuitBreaker → Tried A
  try_once attempt none = record { ended = s.fn attempt; breaker = none; ran = true }
  try_once attempt (some b) = execute attempt b

  unfoldable pub raised_by : Attempt A → Option Exception
  raised_by (returned a) = none
  raised_by (raised e) = some e

  -- What follows the loop, by `last_exc`.
  unfoldable pub after_loop : ℕ → Option Exception → Outcome A
  after_loop max_attempts none = assertion_failed
  after_loop max_attempts (some e) = retry_exhausted max_attempts e

  abbrev pub sleep : ℕ → Option CircuitBreaker → Option CircuitBreaker
  sleep attempt none = none
  sleep attempt (some b) = some (s.while_sleeping attempt b)

  abbrev pub note_call : ℕ → Bool → List ℕ → List ℕ
  note_call attempt ran called = if ran then attempt ∷ called else called

  module _ (max_attempts : ℕ) (extra_transient : List String) where
    -- The loop from `attempt` on, with `left` attempts to go.
    unfoldable pub retry_from : ℕ → ℕ → Option Exception → Option CircuitBreaker → Run A
    unfolding raised_by after_loop
    retry_from zero attempt last_exc cb = record {
      outcome = after_loop max_attempts last_exc;
      breaker = cb;
      called = [];
      slept = [];
    }
    retry_from (suc left) attempt last_exc cb =
        let t = try_once attempt cb in
        let rest = retry_from left (attempt + 1) (raised_by t.ended) (sleep attempt t.breaker) in
        elim (judge attempt max_attempts extra_transient t.ended) [
          | some o ↦ record {
            outcome = o;
            breaker = t.breaker;
            called = note_call attempt t.ran [];
            slept = [];
          }
          | none ↦ record {
            outcome = rest.outcome;
            breaker = rest.breaker;
            called = note_call attempt t.ran rest.called;
            slept = attempt ∷ rest.slept;
          }
        ]

    unfoldable pub retry_async : Option CircuitBreaker → Run A
    retry_async cb = retry_from max_attempts 1 none cb
