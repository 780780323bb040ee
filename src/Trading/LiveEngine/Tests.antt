-- ===== src/Trading/LiveEngine/Tests.antt =====
-- The theorems about src/trading/live_engine.py at inputs that meet their hypotheses, with whole numbers
-- for decimals.
use algo_engine.Prelude.{
  ℕ, ◌≤◌, ◌≡◌, ◌≢◌, ◌⊎◌, leb, if◌then◌else◌, Option, Bool, refl, true, false, none, some, String,
  [], ◌∷◌, arith,
}
use algo_engine.Prelude.Int.{ℤ, pos}
use algo_engine.Prelude.Eq.{string_eq}
use algo_engine.Resilience.Exceptions.{isinstance, categorize_exception}
use algo_engine.Resilience.Breaker.{CircuitBreaker, new_breaker, admit, settle}
use algo_engine.Resilience.Retry.{retry_from, judge, try_once, execute}
use algo_engine.Trading.Decimal.{int_decimal}
use algo_engine.Trading.Order.{Order, limit, buy, gtc, submitted}
use algo_engine.Trading.Market.{int_literals}
use algo_engine.Trading.Execution.{ExecutionEngine, no_broker, disconnected, new_engine}
use algo_engine.Portfolio.Risk.{Percentages}
use algo_engine.Trading.LiveEngine.{
  LiveEngineConfig, LiveEngine, live, paper, healthy, new_live, pause,
}
use algo_engine.Trading.LiveEngine.Cancellation.{cancel_order}
use algo_engine.Trading.LiveEngine.Connection.{start}
use algo_engine.Trading.LiveEngine.Submission.{submit_order, begin_order, finish_order}
use algo_engine.Trading.LiveEngine.Reconnection.{Meanwhile, perform_health_check}
use algo_engine.Trading.LiveEngine.Reconnection.Outcomes.{IsOffline, perform_health_check_lem}
use algo_engine.Trading.LiveEngine.Reconnection.Attempts.{IsUp}
use algo_engine.Trading.LiveEngine.Narrow.{IsWithin}
use algo_engine.Trading.LiveEngine.Reach.{
  here, later, steps, begins, finishes, starts, cancels, reachable-IsWithin,
}
use algo_engine.Trading.LiveEngine.Standby.{submit_paused}

abbrev config : LiveEngineConfig ℤ
config = record {
  max_pending_orders = 2;
  max_daily_trades = 3;
  max_daily_volume = pos 1000;
  circuit_breaker_loss_pct = pos 5;
  auto_reconnect = true;
  reconnect_max_attempts = 10;
}

abbrev percentages : Percentages ℤ
percentages = record { percent = λ a b. pos 0; drawdown = λ a b. pos 0; one = pos 1 }

abbrev breaker : CircuitBreaker
unfolding new_breaker
breaker =
    new_breaker
      (record {
        failure_threshold = 5;
        cooldown = 300;
        half_open_max_calls = 1;
        reset_success_threshold = 2;
      })
      "live_engine"

abbrev execution : ExecutionEngine String ℤ
unfolding new_engine
execution =
    new_engine no_broker
      (record { per_share = pos 0; min_per_order = pos 0; max_percent = pos 1; flat_fee = pos 0 })
      (record { fixed_slippage = pos 0; percentage = pos 0; volume_impact = pos 0 })

abbrev order : Order String ℤ
order = record {
  symbol = "AUDUSD";
  side = buy;
  quantity = pos 100;
  order_type = limit;
  limit_price = some (pos 9);
  stop_price = none;
  time_in_force = gtc;
  order_id = "o1";
  status = submitted;
  filled_quantity = pos 0;
  remaining_quantity = pos 100;
  avg_fill_price = none;
  updated_at = none;
  filled_at = none;
  cancelled_at = none;
}

abbrev new : LiveEngine String ℤ
new = new_live config paper execution breaker

abbrev label : ℕ → String
label n = "f"

abbrev second_order : Order String ℤ
second_order = record order { order_id = "o2" }

abbrev online : LiveEngine String ℤ
online = new_live config paper (record execution { broker = disconnected }) breaker

-- Both orders pass the limits before the broker answers for either of them.
abbrev both_begun : LiveEngine String ℤ
both_begun =
    (begin_order percentages true 8 second_order
      (begin_order percentages true 7 order (start (some true) online).1).1).1

abbrev both_taken : LiveEngine String ℤ
both_taken = (finish_order (some true) second_order (finish_order (some true) order both_begun).1).1

none_waits : 0 ≤ 1
none_waits = ground arith

one_waits : 1 ≤ 1
one_waits = ground arith

reachable-IsWithin_example : IsWithin 1 0 (cancel_order 9 "o1" both_taken).1
unfolding begin_order start new_live breaker algo_engine.Prelude.Int.◌+ℤ◌
reachable-IsWithin_example =
    reachable-IsWithin label percentages config paper (record execution { broker = disconnected })
      breaker 1
      (later
        (later
          (later
            (later
              (later (later here (steps (starts (some true)))) (begins true 7 order none_waits))
              (begins true 8 second_order one_waits))
            (finishes (some true) order (second_order ∷ []) [] refl))
          (finishes (some true) second_order [] [] refl))
        (steps (cancels 9 "o1")))

abbrev running_live : LiveEngine String ℤ
running_live = record new { running = true; mode = live; health = healthy }

submit_paused_example :
    (submit_order percentages none true 7 order (pause running_live)).0
    ≡ (submit_order percentages none false 7 order running_live).0
submit_paused_example = submit_paused percentages none 7 order running_live refl refl

abbrev broken : LiveEngine String ℤ
broken = record running_live { execution = record execution { broker = disconnected } }

abbrev quiet : Meanwhile
quiet = record { clock = λ n. (10, 11, 12); while_running = λ n b. b; while_sleeping = λ n b. b }

-- The broker takes the connection from the third attempt on.
abbrev third : ℕ → Option Bool
third n = if leb 3 n then some true else none

third_recovers : (perform_health_check true quiet third broken).1.health ≡ healthy
unfolding perform_health_check new_live retry_from judge try_once execute admit breaker isinstance
    categorize_exception settle
third_recovers = refl

perform_health_check_lem_example :
    let e' = (perform_health_check true quiet third broken).1 in
    ((n : ℕ) × (third n ≡ some true) × IsUp e')
    ⊎ (IsOffline e' × ((submit_order percentages none true 7 order e').0 ≢ none))
unfolding new_live
perform_health_check_lem_example =
    perform_health_check_lem quiet third percentages none true 7 order broken refl refl
