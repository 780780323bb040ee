-- ===== src/Trading/LiveEngine/Submission.antt =====
-- `submit_order` of src/trading/live_engine.py: in one go, where nothing else happens before the
-- broker answers, and in two, since the execution engine waits for the broker between its checks and
-- what it records.
use algo_engine.Prelude.{
  ℕ, ◌+◌, Bool, true, false, not, ◌&&◌, Option, none, some, leb as leb_ℕ, if◌then◌else◌, length,
}
use algo_engine.Prelude.Eq.{Eq}
use algo_engine.Resilience.Breaker.{is_active}
use algo_engine.Trading.Decimal.{Decimal}
use algo_engine.Trading.Order.{Order}
use algo_engine.Trading.OrderManager.{set_add, register_order}
use algo_engine.Trading.Market.{Literals}
use algo_engine.Trading.Execution.{submit, settle}
use algo_engine.Portfolio.Risk.{Percentages, Reason, check_order}
use algo_engine.Trading.LiveEngine.{
  EngineHealth, critical, offline, order_submitted, LiveEngine, is_live, is_warmup, emit,
}

-- Why an order is not submitted.
pub data Refusal : Type 0 where
  not_running in_warmup breaker_active poor_health trade_limit volume_limit : Refusal
  pending_limit refused_by_broker : Refusal
  refused_by_risk : Reason → Refusal

abbrev pub is_poor : EngineHealth → Bool
is_poor critical = true
is_poor offline = true
is_poor _ = false

module _ {S D : Type 0} where
  -- What an order adds to the day's volume; a price of zero counts as none.
  unfoldable pub new_volume : ⦃d : Decimal D⦄ ⦃l : Literals D⦄ → Order S D → D
  new_volume ⦃d⦄ ⦃l⦄ o =
      d.mul o.quantity
        (elim o.limit_price [ none ↦ l.one | some p ↦ if d.eqb p d.zero then l.one else p ])

  -- The price that the risk is checked at.
  unfoldable pub risk_price : ⦃d : Decimal D⦄ ⦃l : Literals D⦄ → Order S D → D
  risk_price ⦃d⦄ ⦃l⦄ o = elim o.limit_price [
    | none ↦ l.hundred
    | some p ↦ if d.eqb p d.zero then l.hundred else p
  ]

module _ {S D : Type 0} ⦃eq : Eq S⦄ ⦃d : Decimal D⦄ ⦃l : Literals D⦄ where
  open d use {zero, add, leb}

  -- The tests of `submit_order` up to the limits, by whether the circuit breaker is active.
  unfoldable pub refusal : Bool → Order S D → LiveEngine S D → Option Refusal
  unfolding new_volume
  refusal breaker o e =
      if not e.running
      then some not_running
      else if is_warmup e.mode
      then some in_warmup
      else if breaker
      then some breaker_active
      else if is_poor e.health
      then some poor_health
      else if leb_ℕ e.config.max_daily_trades e.daily_trade_count
      then some trade_limit
      else if not (leb (add e.daily_volume (new_volume o)) e.config.max_daily_volume)
      then some volume_limit
      else if leb_ℕ e.config.max_pending_orders (length e.pending_orders)
      then some pending_limit
      else none

  -- The risk check of `submit_order`.
  unfoldable pub risk_refusal : Percentages D → Bool → Order S D → LiveEngine S D → Option Reason
  unfolding check_order risk_price
  risk_refusal f check o e =
      if check && is_live e.mode
      then elim e.risk_manager [ none ↦ none | some m ↦ check_order f m o (risk_price o) ]
      else none

  abbrev pub count_rejected : LiveEngine S D → LiveEngine S D
  count_rejected e = record e {
    stats = record (e.stats) { total_orders_rejected = e.stats.total_orders_rejected + 1 };
  }

  -- An order that the execution engine took.
  unfoldable pub record_submitted : Order S D → LiveEngine S D → LiveEngine S D
  unfolding new_volume
  record_submitted o e = emit (order_submitted o.order_id) (record e {
    pending_orders = set_add o.order_id e.pending_orders;
    stats = record (e.stats) { total_orders_submitted = e.stats.total_orders_submitted + 1 };
    daily_trade_count = e.daily_trade_count + 1;
    daily_volume = add e.daily_volume (new_volume o);
  })

  -- The end of `submit_order`; `none` is success.
  unfoldable pub pass_on :
      Option Bool → Order S D → LiveEngine S D → Option Refusal × LiveEngine S D
  unfolding submit record_submitted
  pass_on answer o e =
      let (ok, x) = submit answer o e.execution in
      let e' = record e { execution = x } in
      if ok then (none, record_submitted o e') else (some refused_by_broker, count_rejected e')

  -- `submit_order` once the risk is checked.
  abbrev pub after_risk :
      Option Reason → Option Bool → Order S D → LiveEngine S D → Option Refusal × LiveEngine S D
  after_risk (some r) answer o e = (some (refused_by_risk r), count_rejected e)
  after_risk none answer o e = pass_on answer o e

  -- `submit_order` with what the tests come to.
  abbrev pub after_tests :
      Option Refusal
      → Percentages D
      → Option Bool
      → Bool
      → Order S D
      → LiveEngine S D
      → Option Refusal × LiveEngine S D
  after_tests (some r) f answer check o e = (some r, e)
  after_tests none f answer check o e = after_risk (risk_refusal f check o e) answer o e

  -- The breaker is asked, and so moved on, only where the tests before it pass.
  abbrev pub ask_breaker : ℕ → LiveEngine S D → LiveEngine S D × Bool
  ask_breaker now e =
      if e.running && not (is_warmup e.mode)
      then (let (b, active) = is_active now e.circuit_breaker in
          (record e { circuit_breaker = b }, active))
      else (e, false)

  -- `submit_order` where the broker answers before any other call
  unfoldable pub submit_order :
      Percentages D
      → Option Bool
      → Bool
      → ℕ
      → Order S D
      → LiveEngine S D
      → Option Refusal × LiveEngine S D
  unfolding refusal risk_refusal pass_on is_active
  submit_order f answer check now o e =
      let (e', active) = ask_breaker now e in after_tests (refusal active o e') f answer check o e'

  -- `submit_order` up to where the execution engine waits for a broker that is connected; the calls
  -- that come in the meantime find the order registered.
  unfoldable pub begin_order :
      Percentages D → Bool → ℕ → Order S D → LiveEngine S D → Option Refusal × LiveEngine S D
  unfolding refusal risk_refusal is_active register_order
  begin_order f check now o e =
      let (e', active) = ask_breaker now e in
      elim (refusal active o e') [
        | some r ↦ (some r, e')
        | none ↦ elim (risk_refusal f check o e') [
          | some r ↦ (some (refused_by_risk r), count_rejected e')
          | none ↦ (
            none,
            record e' {
              execution = record e'.execution {
                order_manager = register_order o e'.execution.order_manager;
              };
            },
          )
        ]
      ]

  -- `submit_order` from the broker's answer on.
  unfoldable pub finish_order :
      Option Bool → Order S D → LiveEngine S D → Option Refusal × LiveEngine S D
  unfolding record_submitted
  finish_order answer o e =
      let (ok, x) = settle answer o e.execution in
      let e' = record e { execution = x } in
      if ok then (none, record_submitted o e') else (some refused_by_broker, count_rejected e')
