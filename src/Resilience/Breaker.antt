-- ===== src/Resilience/Breaker.antt =====
-- `CircuitBreaker` of src/utils/error_handler.py. Times are whole microseconds, each reading of the
-- clock is an argument, and callbacks are named by numbers: `calls` lists those that were run, the
-- latest first. A callback is taken to leave the breaker alone; what it raises is swallowed.
pub mod Invariant
pub mod Behaviour
use algo_engine.Prelude.{
  ℕ, ◌+◌, ◌-◌, Bool, true, false, Option, none, some, List, [], ◌∷◌, String, leb, if◌then◌else◌,
}

-- The states; `opened` is OPEN, which is a reserved word here.
pub data CircuitBreakerState : Type 0 where
  closed opened half_open : CircuitBreakerState

pub record CircuitBreakerConfig : Type 0 where
  pub failure_threshold : ℕ
  pub cooldown : ℕ
  pub half_open_max_calls : ℕ
  pub reset_success_threshold : ℕ

pub record CircuitBreakerStats : Type 0 where
  pub state : CircuitBreakerState
  pub failure_count : ℕ
  pub success_count : ℕ
  pub half_open_inflight : ℕ
  pub last_failure_time : Option ℕ
  pub last_success_time : Option ℕ
  pub opened_at : Option ℕ
  pub total_trips : ℕ

abbrev pub fresh_stats : CircuitBreakerStats
fresh_stats = record {
  state = closed;
  failure_count = 0;
  success_count = 0;
  half_open_inflight = 0;
  last_failure_time = none;
  last_success_time = none;
  opened_at = none;
  total_trips = 0;
}

-- A run of callback `handler` with the breaker's name.
pub record Call : Type 0 where
  pub handler : ℕ
  pub argument : String

pub record CircuitBreaker : Type 0 where
  pub config : CircuitBreakerConfig
  pub name : String
  pub stats : CircuitBreakerStats
  pub on_open : List ℕ
  pub on_close : List ℕ
  pub on_half_open : List ℕ
  pub calls : List Call

-- `CircuitBreaker.__init__`
unfoldable pub new_breaker : CircuitBreakerConfig → String → CircuitBreaker
new_breaker config name = record {
  config = config;
  name = name;
  stats = fresh_stats;
  on_open = [];
  on_close = [];
  on_half_open = [];
  calls = [];
}

-- `_fire`, on the calls made so far.
fire : List ℕ → String → List Call → List Call
fire [] name calls = calls
fire (h ∷ hs) name calls = fire hs name (record { handler = h; argument = name } ∷ calls)

state_is : CircuitBreakerState → CircuitBreakerState → Bool
state_is closed closed = true
state_is opened opened = true
state_is half_open half_open = true
state_is _ _ = false

-- `_transition_to_open`
unfoldable pub transition_to_open : ℕ → CircuitBreaker → CircuitBreaker
unfolding fire state_is
transition_to_open now b = if state_is b.stats.state opened then b else record b {
  stats = record (b.stats) {
    state = opened;
    opened_at = some now;
    total_trips = b.stats.total_trips + 1;
    success_count = 0;
  };
  calls = fire b.on_open b.name b.calls;
}

-- `_transition_to_half_open`
unfoldable pub transition_to_half_open : CircuitBreaker → CircuitBreaker
unfolding fire
transition_to_half_open b = record b {
  stats = record (b.stats) { state = half_open; failure_count = 0; success_count = 0 };
  calls = fire b.on_half_open b.name b.calls;
}

-- `_transition_to_closed`
unfoldable pub transition_to_closed : CircuitBreaker → CircuitBreaker
unfolding fire
transition_to_closed b = record b {
  stats = record (b.stats) {
    state = closed;
    failure_count = 0;
    success_count = 0;
    opened_at = none;
  };
  calls = fire b.on_close b.name b.calls;
}

-- `_cooldown_elapsed`; with natural numbers `now - opened_at >= cooldown` reads as below.
unfoldable pub cooldown_elapsed : ℕ → CircuitBreaker → Bool
cooldown_elapsed now b = elim (b.stats.opened_at) [
  | none ↦ true
  | some t ↦ leb (t + b.config.cooldown) now
]

-- `is_active`, a property that moves the breaker on when the cooldown is over.
unfoldable pub is_active : ℕ → CircuitBreaker → CircuitBreaker × Bool
unfolding state_is cooldown_elapsed transition_to_half_open
is_active now b =
    if state_is b.stats.state opened
    then (if cooldown_elapsed now b then (transition_to_half_open b, false) else (b, true))
    else (b, false)

-- The part of `record_success` below its first two assignments.
count_success : CircuitBreaker → CircuitBreaker
unfolding state_is transition_to_closed
count_success b =
    if state_is b.stats.state half_open
    then (let c = record b {
      stats = record (b.stats) { success_count = b.stats.success_count + 1 };
    } in
        if leb c.config.reset_success_threshold c.stats.success_count
        then transition_to_closed c
        else c)
    else b

unfoldable pub record_success : ℕ → CircuitBreaker → CircuitBreaker
unfolding count_success
record_success now b =
    count_success
      (record b { stats = record (b.stats) { last_success_time = some now; failure_count = 0 } })

-- The part of `record_failure` below its first assignments; `later` is the second clock reading.
react_to_failure : ℕ → CircuitBreaker → CircuitBreaker
unfolding transition_to_open
react_to_failure later b = elim (b.stats.state) [
  | closed ↦
      if leb b.config.failure_threshold b.stats.failure_count then transition_to_open later b else b
  | half_open ↦ transition_to_open later b
  | opened ↦ b
]

unfoldable pub record_failure : ℕ → ℕ → CircuitBreaker → CircuitBreaker
unfolding react_to_failure
record_failure now later b = react_to_failure later (record b {
  stats = record (b.stats) {
    failure_count = b.stats.failure_count + 1;
    last_failure_time = some now;
  };
})

-- `execute` up to the `await`: refused with `CircuitBreakerOpenError` (`false`), or let through.
unfoldable pub admit : ℕ → CircuitBreaker → CircuitBreaker × Bool
unfolding is_active state_is
admit now b =
    let (c, active) = is_active now b in
    if active
    then (c, false)
    else if state_is c.stats.state half_open
    then (
      record c { stats = record (c.stats) { half_open_inflight = c.stats.half_open_inflight + 1 } },
      true,
    )
    else (c, true)

-- The `finally` of `execute`; `max(0, n - 1)` is subtraction on natural numbers.
release : CircuitBreaker → CircuitBreaker
unfolding state_is
release b =
    if state_is b.stats.state half_open
    then record b {
      stats = record (b.stats) { half_open_inflight = b.stats.half_open_inflight - 1 };
    }
    else b

-- `execute` after the `await`, by whether the call succeeded.
unfoldable pub settle : Bool → ℕ → ℕ → CircuitBreaker → CircuitBreaker
unfolding release record_success record_failure
settle ok now later b = release (if ok then record_success now b else record_failure now later b)

-- `trip`
unfoldable pub trip : ℕ → CircuitBreaker → CircuitBreaker
unfolding transition_to_open
trip now b = transition_to_open now b

-- `reset`
unfoldable pub reset : CircuitBreaker → CircuitBreaker
reset b = record b { stats = fresh_stats }
