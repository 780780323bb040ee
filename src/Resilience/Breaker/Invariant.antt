-- ===== src/Resilience/Breaker/Invariant.antt =====
-- The state machine of `CircuitBreaker` (src/utils/error_handler.py): what holds in every state
-- that its operations can reach, in any interleaving of concurrent calls.
use algo_engine.Prelude.{
  ℕ, ◌<◌, ◌≡◌, ◌≢◌, Bool, true, false, none, List, [], ◌∷◌, String, arith, ◌⊎◌,
}
use algo_engine.Resilience.Breaker.{
  CircuitBreaker, CircuitBreakerConfig, closed, opened, half_open, new_breaker, is_active,
  record_success, record_failure, admit, settle, trip, reset,
}

-- Everything that a caller may do to a breaker, with its clock readings. An `execute` is an `admit`
-- and, some time later, a `settle`, so that concurrent calls interleave.
pub data Operation : Type 0 where
  ask_is_active : ℕ → Operation
  note_success : ℕ → Operation
  note_failure : ℕ → ℕ → Operation
  begin_call : ℕ → Operation
  end_call : Bool → ℕ → ℕ → Operation
  force_open : ℕ → Operation
  force_reset : Operation

unfoldable pub perform : Operation → CircuitBreaker → CircuitBreaker
perform (ask_is_active now) b = (is_active now b).0
perform (note_success now) b = record_success now b
perform (note_failure now later) b = record_failure now later b
perform (begin_call now) b = (admit now b).0
perform (end_call ok now later) b = settle ok now later b
perform (force_open now) b = trip now b
perform force_reset b = reset b

unfoldable pub perform_all : List Operation → CircuitBreaker → CircuitBreaker
perform_all [] b = b
perform_all (o ∷ os) b = perform_all os (perform o b)

-- CLOSED with fewer failures than the threshold, HALF_OPEN with fewer successes than its threshold,
-- or OPEN since a known time; no success is counted outside HALF_OPEN.
abbrev pub IsSound : CircuitBreaker → Type 0
IsSound b =
    ((b.stats.state ≡ closed)
      × (b.stats.failure_count < b.config.failure_threshold)
      × (b.stats.success_count ≡ 0))
    ⊎ ((b.stats.state ≡ half_open) × (b.stats.success_count < b.config.reset_success_threshold))
    ⊎ ((b.stats.state ≡ opened) × (b.stats.opened_at ≢ none) × (b.stats.success_count ≡ 0))

pub record IsUsable (c : CircuitBreakerConfig) : Type 0 where
  pub failures : 0 < c.failure_threshold
  pub successes : 0 < c.reset_success_threshold

is_active-IsSound :
    (now : ℕ) (b : CircuitBreaker) → IsUsable b.config → IsSound b → IsSound (is_active now b).0
unfolding is_active
is_active-IsSound now b u h = ground arith

record_success-IsSound :
    (now : ℕ) (b : CircuitBreaker) → IsUsable b.config → IsSound b → IsSound (record_success now b)
unfolding record_success
record_success-IsSound now b u h = ground arith

record_failure-IsSound :
    (now later : ℕ) (b : CircuitBreaker)
    → IsUsable b.config
    → IsSound b
    → IsSound (record_failure now later b)
unfolding record_failure
record_failure-IsSound now later b u h = ground arith

admit-IsSound :
    (now : ℕ) (b : CircuitBreaker) → IsUsable b.config → IsSound b → IsSound (admit now b).0
unfolding admit
admit-IsSound now b u h = ground arith

settle-IsSound :
    (ok : Bool) (now later : ℕ) (b : CircuitBreaker)
    → IsUsable b.config
    → IsSound b
    → IsSound (settle ok now later b)
unfolding settle
settle-IsSound true now later b u h = ground arith
settle-IsSound false now later b u h = ground arith

trip-IsSound : (now : ℕ) (b : CircuitBreaker) → IsSound b → IsSound (trip now b)
unfolding trip
trip-IsSound now b h = ground arith

reset-IsSound : (b : CircuitBreaker) → IsUsable b.config → IsSound (reset b)
unfolding reset
reset-IsSound b u = ground arith

pub perform-IsSound :
    (o : Operation) (b : CircuitBreaker) → IsUsable b.config → IsSound b → IsSound (perform o b)
unfolding perform
perform-IsSound (ask_is_active now) b u h = is_active-IsSound now b u h
perform-IsSound (note_success now) b u h = record_success-IsSound now b u h
perform-IsSound (note_failure now later) b u h = record_failure-IsSound now later b u h
perform-IsSound (begin_call now) b u h = admit-IsSound now b u h
perform-IsSound (end_call ok now later) b u h = settle-IsSound ok now later b u h
perform-IsSound (force_open now) b u h = trip-IsSound now b h
perform-IsSound force_reset b u h = reset-IsSound b u

pub perform-config : (o : Operation) (b : CircuitBreaker) → (perform o b).config ≡ b.config
unfolding perform is_active record_success record_failure admit settle trip reset
perform-config (ask_is_active now) b = ground arith
perform-config (note_success now) b = ground arith
perform-config (note_failure now later) b = ground arith
perform-config (begin_call now) b = ground arith
perform-config (end_call true now later) b = ground arith
perform-config (end_call false now later) b = ground arith
perform-config (force_open now) b = ground arith
perform-config force_reset b = ground arith

perform_all-IsSound :
    (os : List Operation) (b : CircuitBreaker)
    → IsUsable b.config
    → IsSound b
    → IsSound (perform_all os b)
unfolding perform_all
perform_all-IsSound [] b u h = h
perform_all-IsSound (o ∷ os) b u h =
    perform_all-IsSound os (perform o b) (rw (perform-config o b) u) (perform-IsSound o b u h)

new_breaker-IsSound :
    (c : CircuitBreakerConfig) (name : String) → IsUsable c → IsSound (new_breaker c name)
unfolding new_breaker
new_breaker-IsSound c name u = ground arith

-- With both thresholds at least 1, after any sequence of operations on a new breaker: CLOSED means
-- fewer failures than the threshold, HALF_OPEN means fewer successes than its threshold, in the
-- other states no success is counted, and OPEN means that the time of opening is known.
pub reachable-IsSound :
    (c : CircuitBreakerConfig) (name : String) (os : List Operation)
    → IsUsable c
    → IsSound (perform_all os (new_breaker c name))
unfolding new_breaker
reachable-IsSound c name os u = perform_all-IsSound os _ u (new_breaker-IsSound c name u)
