-- ===== src/Resilience/Tests.antt =====
-- The theorems about src/utils/error_handler.py at inputs that meet their hypotheses.
use algo_engine.Prelude.{ℕ, ◌<◌, ◌≡◌, refl, false, none, some, [], ◌∷◌, arith, if◌then◌else◌, ◌==◌}
use algo_engine.Prelude.Eq.{string_eq}
use algo_engine.Resilience.Exceptions.{Exception, transient, categorize_exception}
use algo_engine.Resilience.Breaker.{
  CircuitBreaker, CircuitBreakerConfig, closed, opened, half_open, new_breaker, record_failure,
}
use algo_engine.Resilience.Breaker.Invariant.{
  note_failure, begin_call, end_call, perform_all, IsSound, IsUsable, reachable-IsSound,
}
use algo_engine.Resilience.Breaker.Behaviour.{
  IsCooling, fail_times, fail_times_trips, succeed_times, succeed_times_recovers,
}
use algo_engine.Resilience.Retry.{Attempt, returned, raised, Surroundings, retry_async}
use algo_engine.Resilience.Retry.Loop.{IsDecided, IsBounded, retry-IsDecided, retry-IsBounded}
use algo_engine.Resilience.Handler.{ErrorHandler}

abbrev config : CircuitBreakerConfig
config = record {
  failure_threshold = 3;
  cooldown = 60;
  half_open_max_calls = 1;
  reset_success_threshold = 2;
}

config-IsUsable : IsUsable config
config-IsUsable = record { failures = omega arith; successes = omega arith }

abbrev breaker : CircuitBreaker
unfolding new_breaker
breaker = new_breaker config "orders"

-- The breaker after its threshold was reached at time 10, and as a probe finds it.
abbrev tripped : CircuitBreaker
unfolding breaker
tripped = record breaker {
  stats = record (breaker.stats) {
    state = opened;
    failure_count = 3;
    opened_at = some 10;
    total_trips = 1;
  };
}

abbrev probing : CircuitBreaker
unfolding breaker
probing = record breaker { stats = record (breaker.stats) { state = half_open } }

reachable-IsSound_example : IsSound (
    perform_all
      (note_failure 1 2 ∷ begin_call 3 ∷ end_call false 4 5 ∷ [])
      (new_breaker config "orders"))
reachable-IsSound_example =
    reachable-IsSound config "orders" (note_failure 1 2 ∷ begin_call 3 ∷ end_call false 4 5 ∷ [])
      config-IsUsable

fail_times_trips_example :
    (((fail_times (λ i. (i, i)) 1 breaker).stats.state ≡ closed)
      × ((fail_times (λ i. (i, i)) 1 breaker).stats.total_trips ≡ 0))
    × (((fail_times (λ i. (i, i)) 3 breaker).stats.state ≡ opened)
        × ((fail_times (λ i. (i, i)) 3 breaker).stats.opened_at ≡ some 2)
        × ((fail_times (λ i. (i, i)) 3 breaker).stats.total_trips ≡ 1))
unfolding breaker
fail_times_trips_example = fail_times_trips (λ i. (i, i)) 2 1 breaker refl refl refl (omega arith)

succeed_times_recovers_example :
    ((succeed_times (λ i. i) 1 probing).stats.state ≡ half_open)
    × (let c = succeed_times (λ i. i) 2 probing in
        (c.stats.state ≡ closed) × (c.stats.failure_count ≡ 0) × (c.stats.opened_at ≡ none))
    × (let d = record_failure 8 9 (succeed_times (λ i. i) 1 probing) in
        (d.stats.state ≡ opened) × (d.stats.opened_at ≡ some 9))
unfolding probing
succeed_times_recovers_example =
    succeed_times_recovers (λ i. i) 1 1 8 9 probing refl refl refl (omega arith)

abbrev timeout_error : Exception
timeout_error = record {
  mro = "TimeoutError" ∷ "OSError" ∷ "Exception" ∷ "BaseException" ∷ "object" ∷ [];
  status_code = none;
  status = none;
}

-- The first attempt times out, and the others return their number.
abbrev answer : ℕ → Attempt ℕ
answer n = if n == 1 then raised timeout_error else returned n

abbrev flaky : Surroundings ℕ
flaky = record {
  fn = answer;
  clock = λ i. (i, i, i);
  while_running = λ i b. b;
  while_sleeping = λ i b. b;
}

retry-IsDecided_example : (k : ℕ) × IsDecided flaky 3 [] 1 k (retry_async flaky 3 [] none)
retry-IsDecided_example = retry-IsDecided flaky 3 [] (omega arith)

retry-IsBounded_example : IsBounded flaky 3 [] 3 (retry_async flaky 3 [] (some breaker))
retry-IsBounded_example = retry-IsBounded flaky 3 [] (some breaker) (omega arith)

tripped-IsCooling : (now : ℕ) → now < 70 → IsCooling now tripped
unfolding tripped
tripped-IsCooling now h = record { is_open = refl; since = 10; opened_since = refl; too_early = h }

abbrev handler : ErrorHandler
handler = record {
  config = record { max_attempts = 3; circuit_breaker = config };
  circuit_breakers = ("orders", breaker) ∷ [];
  error_counts = [];
}

-- The breaker that has counted two failures already.
abbrev weak : CircuitBreaker
unfolding breaker
weak = record breaker { stats = record (breaker.stats) { failure_count = 2 } }

abbrev weak_handler : ErrorHandler
weak_handler = record handler { circuit_breakers = ("orders", weak) ∷ [] }

is_transient_error : categorize_exception timeout_error [] ≡ transient
unfolding categorize_exception
is_transient_error = refl
