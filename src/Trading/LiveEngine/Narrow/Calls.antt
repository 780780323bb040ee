-- ===== src/Trading/LiveEngine/Narrow/Calls.antt =====
-- The broker, its orders, fills and ticks in src/trading/live_engine.py.
use algo_engine.Prelude.{
  ℕ, refl, Bool, true, false, not, ◌&&◌, ◌||◌, Option, none, some, List, [], ◌∷◌, String,
  if◌then◌else◌, Option-cases, Bool-cases, inl, inr,
}
use algo_engine.Prelude.Eq.{string_eq, elem}
use algo_engine.Prelude.Dict.{Dict, lookup, contains}
use algo_engine.Trading.Decimal.{Decimal}
use algo_engine.Trading.Order.{OrderStatus, Fill}
use algo_engine.Trading.OrderManager.{discard}
use algo_engine.Trading.Execution.{Broker, no_broker, connected, disconnected}
use algo_engine.Portfolio.Risk.{Percentages}
use algo_engine.Trading.LiveEngine.{LiveEngine, is_live, has_broker}
use algo_engine.Trading.LiveEngine.Cancellation.{cancel_each, stop_live}
use algo_engine.Trading.LiveEngine.Connection.{
  finish_start, start, connect_by, connect_broker, disconnect_broker,
}
use algo_engine.Trading.LiveEngine.OrderSync.{
  sync_order, sync_each, sync_orders, write_status, is_final, status_eq,
}
use algo_engine.Trading.LiveEngine.Ticks.{handle_fill, handle_fills, watch_drawdown}
use algo_engine.Trading.LiveEngine.Narrow.{
  IsNarrow, IsNarrow-trans, IsNarrow-refl, unchanged_IsNarrow, discard-IsNarrow, pick_IsNarrow,
  pick_result, cancel_each-IsNarrow,
}

module _ {S D : Type 0} ⦃d : Decimal D⦄ where
  open d use {zero, leb}

  write_status-IsNarrow :
      (id : String) (s : OrderStatus) (e : LiveEngine S D) → IsNarrow e (write_status id s e)
  write_status-IsNarrow id s e = elim (Option-cases (lookup id e.execution.order_manager.orders)) [
    | inl gone ↦ rw (gone, write_status) (IsNarrow-refl e)
    | inr (o, there) ↦ rw (there, write_status) (unchanged_IsNarrow e _ refl refl refl refl)
  ]

  sync_order-IsNarrow :
      (id : String) (s : OrderStatus) (e : LiveEngine S D) → IsNarrow e (sync_order id s e)
  unfolding sync_order
  sync_order-IsNarrow id s e = elim (Option-cases (lookup id e.execution.order_manager.orders)) [
    | inl gone ↦ rw (gone, sync_order) (IsNarrow-refl e)
    | inr (o, there) ↦
        let w = write_status-IsNarrow id s e in
        let dropped = IsNarrow-trans e _ _ w (
          discard-IsNarrow id (write_status id s e)
            (record (write_status id s e) {
              pending_orders = discard id (write_status id s e).pending_orders;
            })
            refl refl refl refl) in
        rw (there, sync_order)
          (pick_IsNarrow (status_eq s o.status) e _ _ (IsNarrow-refl e)
            (pick_IsNarrow (is_final s) e _ _ dropped w))
  ]

  sync_each-IsNarrow :
      (at_broker : Dict String OrderStatus) (ids : List String) (e : LiveEngine S D)
      → IsNarrow e (sync_each at_broker ids e)
  unfolding sync_each
  sync_each-IsNarrow at_broker [] e = IsNarrow-refl e
  sync_each-IsNarrow at_broker (id ∷ ids) e = elim (Option-cases (lookup id at_broker)) [
    | inl gone ↦ rw (gone, sync_each) (sync_each-IsNarrow at_broker ids e)
    | inr (s, there) ↦
        rw (there, sync_each)
          (IsNarrow-trans e (sync_order id s e) _ (sync_order-IsNarrow id s e)
            (sync_each-IsNarrow at_broker ids (sync_order id s e)))
  ]

  pub sync_orders-IsNarrow :
      (at_broker : Dict String OrderStatus) (e : LiveEngine S D)
      → IsNarrow e (sync_orders at_broker e)
  unfolding sync_orders
  sync_orders-IsNarrow at_broker e =
      pick_IsNarrow (e.is_connected && has_broker e.execution.broker) e _ _
        (sync_each-IsNarrow at_broker e.pending_orders e) (IsNarrow-refl e)

  pub connect_by-IsNarrow :
      (b : Broker) (answer : Option Bool) (e : LiveEngine S D)
      → IsNarrow e (connect_by b answer e).1
  connect_by-IsNarrow no_broker answer e = elim (Bool-cases (is_live e.mode)) [
    | inl h ↦ rw (h, connect_by) (IsNarrow-refl e)
    | inr h ↦ rw (h, connect_by) (unchanged_IsNarrow e _ refl refl refl refl)
  ]
  connect_by-IsNarrow disconnected (some true) e = unchanged_IsNarrow e _ refl refl refl refl
  connect_by-IsNarrow disconnected (some false) e = unchanged_IsNarrow e _ refl refl refl refl
  connect_by-IsNarrow disconnected none e = unchanged_IsNarrow e _ refl refl refl refl
  connect_by-IsNarrow connected (some true) e = unchanged_IsNarrow e _ refl refl refl refl
  connect_by-IsNarrow connected (some false) e = unchanged_IsNarrow e _ refl refl refl refl
  connect_by-IsNarrow connected none e = unchanged_IsNarrow e _ refl refl refl refl

  finish_start-IsNarrow :
      (e : LiveEngine S D) (r : Bool × LiveEngine S D)
      → IsNarrow e r.1
      → IsNarrow e (finish_start r).1
  finish_start-IsNarrow e (true, x) n =
      IsNarrow-trans e x _ n (unchanged_IsNarrow x _ refl refl refl refl)
  finish_start-IsNarrow e (false, x) n =
      IsNarrow-trans e x _ n (unchanged_IsNarrow x _ refl refl refl refl)

  pub start-IsNarrow : (answer : Option Bool) (e : LiveEngine S D) → IsNarrow e (start answer e).1
  unfolding start connect_broker
  start-IsNarrow answer e =
      let e1 = record e { running = true } in
      pick_result e.running e _ _ (IsNarrow-refl e) (
        finish_start-IsNarrow e (connect_by e.execution.broker answer e1) (
          IsNarrow-trans e e1 _ (unchanged_IsNarrow e _ refl refl refl refl)
            (connect_by-IsNarrow e.execution.broker answer e1)))

  pub stop_live-IsNarrow :
      (now : ℕ) (leaves : Bool) (e : LiveEngine S D) → IsNarrow e (stop_live now leaves e)
  unfolding stop_live disconnect_broker
  stop_live-IsNarrow now leaves e =
      let e1 : LiveEngine S D = record e { running = false } in
      let e2 : LiveEngine S D =
        if e.config.auto_reconnect then (cancel_each now e.pending_orders e1).1 else e1 in
      let n1 : IsNarrow e e1 = unchanged_IsNarrow e _ refl refl refl refl in
      let n2 : IsNarrow e e2 = IsNarrow-trans e e1 e2 n1 (
        pick_IsNarrow e.config.auto_reconnect e1 _ _ (cancel_each-IsNarrow now e.pending_orders e1)
          (IsNarrow-refl e1)) in
      pick_IsNarrow (not e.running) e _ _ (IsNarrow-refl e)
        (IsNarrow-trans e e2 _ n2 (unchanged_IsNarrow e2 _ refl refl refl refl))

  handle_fill-IsNarrow : (g : Fill S D) (e : LiveEngine S D) → IsNarrow e (handle_fill g e)
  unfolding handle_fill
  handle_fill-IsNarrow g e =
      pick_IsNarrow
        (elem g.order_id e.pending_orders || contains g.order_id e.execution.order_manager.orders) e
        _ _ (discard-IsNarrow g.order_id e _ refl refl refl refl) (IsNarrow-refl e)

  pub handle_fills-IsNarrow :
      (gs : List (Fill S D)) (e : LiveEngine S D) → IsNarrow e (handle_fills gs e)
  unfolding handle_fills
  handle_fills-IsNarrow [] e = IsNarrow-refl e
  handle_fills-IsNarrow (g ∷ gs) e =
      IsNarrow-trans e (handle_fill g e) _ (handle_fill-IsNarrow g e)
        (handle_fills-IsNarrow gs (handle_fill g e))

  pub watch_drawdown-IsNarrow :
      (f : Percentages D) (now : ℕ) (value : D) (e : LiveEngine S D)
      → IsNarrow e (watch_drawdown f now value e)
  unfolding watch_drawdown
  watch_drawdown-IsNarrow f now value e =
      let peak =
        if leb value e.stats.peak_portfolio_value then e.stats.peak_portfolio_value else value in
      pick_IsNarrow (leb peak zero) e _ _ (unchanged_IsNarrow e _ refl refl refl refl) (
        pick_IsNarrow (leb e.config.circuit_breaker_loss_pct (f.drawdown peak value)) e _ _
          (unchanged_IsNarrow e _ refl refl refl refl) (unchanged_IsNarrow e _ refl refl refl refl))
