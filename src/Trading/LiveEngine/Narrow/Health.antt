-- ===== src/Trading/LiveEngine/Narrow/Health.antt =====
-- The health check of src/trading/live_engine.py.
use algo_engine.Prelude.{ℕ, ◌+◌, ◌&&◌, refl, Bool, false, Option, none, some, List, [], ◌∷◌}
use algo_engine.Resilience.Breaker.{CircuitBreaker}
use algo_engine.Resilience.Retry.{Outcome, value, propagated, retry_exhausted, assertion_failed}
use algo_engine.Trading.Decimal.{Decimal}
use algo_engine.Trading.Execution.{is_connected as holds_connection}
use algo_engine.Trading.LiveEngine.{LiveEngine, degraded, has_broker}
use algo_engine.Trading.LiveEngine.Connection.{connect_broker}
use algo_engine.Trading.LiveEngine.Reconnection.{
  Meanwhile, do_single_reconnect, reconnect_each, finish_reconnect, put_breaker, reconnect_run,
  reconnect_now, reconnect_broker, check_broker, perform_health_check,
}
use algo_engine.Trading.LiveEngine.Narrow.{
  IsNarrow, IsNarrow-trans, IsNarrow-refl, unchanged_IsNarrow, pick_IsNarrow, pick_result,
}
use algo_engine.Trading.LiveEngine.Narrow.Calls.{connect_by-IsNarrow}

module _ {S D : Type 0} ⦃d : Decimal D⦄ where
  reconnect_each-IsNarrow :
      (answers : ℕ → Option Bool) (ns : List ℕ) (e : LiveEngine S D)
      → IsNarrow e (reconnect_each answers ns e)
  unfolding reconnect_each do_single_reconnect connect_broker
  reconnect_each-IsNarrow answers [] e = IsNarrow-refl e
  reconnect_each-IsNarrow answers (n ∷ ns) e =
      let e' = (do_single_reconnect (answers n) e).1 in
      IsNarrow-trans e e' _ (connect_by-IsNarrow e.execution.broker (answers n) e)
        (reconnect_each-IsNarrow answers ns e')

  put_breaker-IsNarrow :
      (cb : Option CircuitBreaker) (e : LiveEngine S D) → IsNarrow e (put_breaker cb e)
  put_breaker-IsNarrow none e = IsNarrow-refl e
  put_breaker-IsNarrow (some b) e = unchanged_IsNarrow e _ refl refl refl refl

  finish_reconnect-IsNarrow :
      (o : Outcome Bool) (e : LiveEngine S D) → IsNarrow e (finish_reconnect o e).1
  finish_reconnect-IsNarrow (value a) e = IsNarrow-refl e
  finish_reconnect-IsNarrow (propagated x) e = unchanged_IsNarrow e _ refl refl refl refl
  finish_reconnect-IsNarrow (retry_exhausted n x) e = unchanged_IsNarrow e _ refl refl refl refl
  finish_reconnect-IsNarrow assertion_failed e = unchanged_IsNarrow e _ refl refl refl refl

  reconnect_now-IsNarrow :
      (w : Meanwhile) (answers : ℕ → Option Bool) (e : LiveEngine S D)
      → IsNarrow e (reconnect_now w answers e).1
  unfolding reconnect_now
  reconnect_now-IsNarrow w answers e =
      let run = reconnect_run w answers e in
      let e1 : LiveEngine S D = record e {
        stats = record (e.stats) { connection_drops = e.stats.connection_drops + 1 };
      } in
      let e2 = reconnect_each answers run.called e1 in
      let e3 = put_breaker run.breaker e2 in
      IsNarrow-trans e e1 _ (unchanged_IsNarrow e e1 refl refl refl refl) (
        IsNarrow-trans e1 e2 _ (reconnect_each-IsNarrow answers run.called e1) (
          IsNarrow-trans e2 e3 _ (put_breaker-IsNarrow run.breaker e2)
            (finish_reconnect-IsNarrow run.outcome e3)))

  check_broker-IsNarrow :
      (in_time : Bool) (w : Meanwhile) (answers : ℕ → Option Bool) (e : LiveEngine S D)
      → IsNarrow e (check_broker in_time w answers e)
  unfolding check_broker reconnect_broker
  check_broker-IsNarrow in_time w answers e =
      let e' : LiveEngine S D = record e { health = degraded; is_connected = false } in
      let n : IsNarrow e e' = unchanged_IsNarrow e e' refl refl refl refl in
      pick_IsNarrow in_time e _ _
        (pick_IsNarrow (holds_connection e.execution.broker) e _ _
          (unchanged_IsNarrow e _ refl refl refl refl)
          (IsNarrow-trans e e' _ n (
            pick_IsNarrow e.config.auto_reconnect e' _ _
              (pick_result (e.config.auto_reconnect && has_broker e.execution.broker) e' _ _
                (reconnect_now-IsNarrow w answers e') (IsNarrow-refl e'))
              (IsNarrow-refl e'))))
        (unchanged_IsNarrow e _ refl refl refl refl)

  pub health_check-IsNarrow :
      (in_time : Bool) (w : Meanwhile) (answers : ℕ → Option Bool) (e : LiveEngine S D)
      → IsNarrow e (perform_health_check in_time w answers e).1
  unfolding perform_health_check
  health_check-IsNarrow in_time w answers e =
      pick_IsNarrow (has_broker e.execution.broker) e _ _
        (check_broker-IsNarrow in_time w answers e) (unchanged_IsNarrow e _ refl refl refl refl)
