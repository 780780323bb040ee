-- ===== src/Trading/LiveEngine/Ticks.antt =====
-- Fills and ticks in src/trading/live_engine.py.
use algo_engine.Prelude.{
  ℕ, ◌+◌, not, ◌||◌, Option, none, some, List, [], ◌∷◌, String, if◌then◌else◌,
}
use algo_engine.Prelude.Eq.{Eq, elem, string_eq}
use algo_engine.Prelude.Dict.{contains}
use algo_engine.Resilience.Breaker.{trip}
use algo_engine.Trading.Decimal.{Decimal}
use algo_engine.Trading.Order.{Fill}
use algo_engine.Trading.OrderManager.{discard, get_order}
use algo_engine.Trading.Market.{Literals, Tick}
use algo_engine.Trading.Execution.{process_tick}
use algo_engine.Portfolio.Risk.{Percentages}
use algo_engine.Trading.LiveEngine.{order_filled, LiveEngine, emit}

module _ {S D : Type 0} ⦃d : Decimal D⦄ where
  open d use {zero, add, leb}

  -- `handle_fill`
  unfoldable pub handle_fill : Fill S D → LiveEngine S D → LiveEngine S D
  unfolding get_order
  handle_fill g e =
      if elem g.order_id e.pending_orders || contains g.order_id e.execution.order_manager.orders
      then emit (order_filled g.fill_id) (record e {
        pending_orders = discard g.order_id e.pending_orders;
        stats = record (e.stats) {
          total_orders_filled = e.stats.total_orders_filled + 1;
          total_volume = add e.stats.total_volume g.quantity;
          total_commission = add e.stats.total_commission g.commission;
          total_slippage = add e.stats.total_slippage g.slippage;
        };
      })
      else e

  unfoldable pub handle_fills : List (Fill S D) → LiveEngine S D → LiveEngine S D
  unfolding handle_fill
  handle_fills [] e = e
  handle_fills (g ∷ gs) e = handle_fills gs (handle_fill g e)

  -- The drawdown from the peak value, and the circuit breaker on it.
  unfoldable pub watch_drawdown : Percentages D → ℕ → D → LiveEngine S D → LiveEngine S D
  unfolding trip
  watch_drawdown f now value e =
      let peak =
        if leb value e.stats.peak_portfolio_value then e.stats.peak_portfolio_value else value in
      let e1 = record e { stats = record (e.stats) { peak_portfolio_value = peak } } in
      if leb peak zero
      then e1
      else (let down = f.drawdown peak value in
          let e2 = record e1 { stats = record (e1.stats) { current_drawdown_pct = down } } in
          if leb e2.config.circuit_breaker_loss_pct down
          then record e2 { circuit_breaker = trip now e2.circuit_breaker }
          else e2)

module _ {S D : Type 0} ⦃eq : Eq S⦄ ⦃d : Decimal D⦄ ⦃l : Literals D⦄ where
  -- `process_market_data` of a tick; `none` where processing the tick raises, which is logged.
  unfoldable pub process_market_data :
      (ℕ → String) → Percentages D → ℕ → D → Tick S D → LiveEngine S D → Option (LiveEngine S D)
  unfolding process_tick handle_fills watch_drawdown
  process_market_data label f now value t e =
      if not e.running
      then some e
      else elim (process_tick label now t (record e.execution { delivered = [] })) [
        | none ↦ none
        | some x ↦
            some
              (watch_drawdown f now value (handle_fills x.delivered (record e { execution = x })))
      ]
