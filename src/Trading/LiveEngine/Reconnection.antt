-- ===== src/Trading/LiveEngine/Reconnection.antt =====
-- The health check of src/trading/live_engine.py and the reconnection that it makes by `retry_async` of
-- src/utils/error_handler.py with the engine's circuit breaker. What the broker's `connect` comes to
-- is a function of the number of the attempt. Other tasks that run meanwhile are taken to touch
-- nothing of the engine but the circuit breaker.
pub mod Attempts
pub mod Outcomes
use algo_engine.Prelude.{
  ℕ, ◌+◌, Bool, true, false, ◌&&◌, Option, none, some, List, [], ◌∷◌, if◌then◌else◌,
}
use algo_engine.Resilience.Breaker.{CircuitBreaker}
use algo_engine.Resilience.Exceptions.{Exception}
use algo_engine.Resilience.Retry.{
  Attempt, returned, raised, Outcome, value, propagated, retry_exhausted, assertion_failed, Run,
  Surroundings, retry_async,
}
use algo_engine.Trading.Execution.{no_broker, is_connected as holds_connection}
use algo_engine.Trading.LiveEngine.{
  EngineHealth, healthy, degraded, critical, offline, LiveEngine, has_broker,
}
use algo_engine.Trading.LiveEngine.Connection.{connect_broker}

-- The readings of the clock and what other tasks do to the circuit breaker, by the attempt.
pub record Meanwhile : Type 0 where
  pub clock : ℕ → ℕ × ℕ × ℕ
  pub while_running : ℕ → CircuitBreaker → CircuitBreaker
  pub while_sleeping : ℕ → CircuitBreaker → CircuitBreaker

abbrev pub connection_error : Exception
connection_error = record {
  mro = "ConnectionError" ∷ "OSError" ∷ "Exception" ∷ "BaseException" ∷ "object" ∷ [];
  status_code = none;
  status = none;
}

-- How `_do_single_reconnect` ends, by what `_connect_broker` returns.
abbrev pub end_of : Bool → Attempt Bool
end_of true = returned true
end_of false = raised connection_error

abbrev pub health_differs : EngineHealth → EngineHealth → Bool
health_differs healthy healthy = false
health_differs degraded degraded = false
health_differs critical critical = false
health_differs offline offline = false
health_differs _ _ = true

module _ {S D : Type 0} where
  -- `_do_single_reconnect`
  unfoldable pub do_single_reconnect : Option Bool → LiveEngine S D → Attempt Bool × LiveEngine S D
  unfolding connect_broker
  do_single_reconnect answer e =
      let (connects, e') = connect_broker answer e in (end_of connects, e')

  -- The engine after the attempts of a list. An attempt ends in the same way in each of its states,
  -- since that depends on the answer and on whether there is a broker.
  unfoldable pub reconnect_each : (ℕ → Option Bool) → List ℕ → LiveEngine S D → LiveEngine S D
  unfolding do_single_reconnect
  reconnect_each answers [] e = e
  reconnect_each answers (n ∷ ns) e =
      reconnect_each answers ns (do_single_reconnect (answers n) e).1

  -- The protected call of `_reconnect_broker` as the retry loop sees it.
  unfoldable pub reconnecting : Meanwhile → (ℕ → Option Bool) → LiveEngine S D → Surroundings Bool
  unfolding do_single_reconnect
  reconnecting w answers e = record {
    fn = λ n. (do_single_reconnect (answers n) e).0;
    clock = w.clock;
    while_running = w.while_running;
    while_sleeping = w.while_sleeping;
  }

  -- The end of `_reconnect_broker`: each exception that leaves `retry_async` is caught.
  abbrev pub finish_reconnect : Outcome Bool → LiveEngine S D → Bool × LiveEngine S D
  finish_reconnect (value a) e = (true, e)
  finish_reconnect (propagated x) e = (false, record e { health = offline })
  finish_reconnect (retry_exhausted n x) e = (false, record e { health = offline })
  finish_reconnect assertion_failed e = (false, record e { health = offline })

  abbrev pub put_breaker : Option CircuitBreaker → LiveEngine S D → LiveEngine S D
  put_breaker none e = e
  put_breaker (some b) e = record e { circuit_breaker = b }

  -- The run of `retry_async` in `_reconnect_broker`.
  unfoldable pub reconnect_run : Meanwhile → (ℕ → Option Bool) → LiveEngine S D → Run Bool
  unfolding retry_async reconnecting
  reconnect_run w answers e =
      retry_async (reconnecting w answers e) e.config.reconnect_max_attempts []
        (some e.circuit_breaker)

  -- `_reconnect_broker` of an engine that may reconnect.
  unfoldable pub reconnect_now :
      Meanwhile → (ℕ → Option Bool) → LiveEngine S D → Bool × LiveEngine S D
  unfolding reconnect_run reconnect_each
  reconnect_now w answers e =
      let run = reconnect_run w answers e in
      let e1 = record e {
        stats = record (e.stats) { connection_drops = e.stats.connection_drops + 1 };
      } in
      finish_reconnect run.outcome (put_breaker run.breaker (reconnect_each answers run.called e1))

  -- `_reconnect_broker`
  unfoldable pub reconnect_broker :
      Meanwhile → (ℕ → Option Bool) → LiveEngine S D → Bool × LiveEngine S D
  unfolding reconnect_now
  reconnect_broker w answers e =
      if e.config.auto_reconnect && has_broker e.execution.broker
      then reconnect_now w answers e
      else (false, e)

  -- `_perform_health_check` of an engine with a broker, by whether the broker says in time if it is
  -- connected.
  unfoldable pub check_broker :
      Bool → Meanwhile → (ℕ → Option Bool) → LiveEngine S D → LiveEngine S D
  unfolding reconnect_broker
  check_broker in_time w answers e =
      if in_time
      then (if holds_connection e.execution.broker
          then record e { health = healthy; is_connected = true }
          else (let e' = record e { health = degraded; is_connected = false } in
              if e.config.auto_reconnect then (reconnect_broker w answers e').1 else e'))
      else record e { health = degraded }

  -- `_perform_health_check`, with what the handlers of a change of health are called with.
  unfoldable pub perform_health_check :
      Bool → Meanwhile → (ℕ → Option Bool) → LiveEngine S D → Option EngineHealth × LiveEngine S D
  unfolding check_broker
  perform_health_check in_time w answers e =
      let e' =
        if has_broker e.execution.broker
        then check_broker in_time w answers e
        else record e { health = healthy; is_connected = true } in
      (if health_differs e.health e'.health then some e'.health else none, e')
