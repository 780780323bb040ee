-- ===== src/Trading/LiveEngine/OrderSync.antt =====
-- `_sync_orders` of src/trading/live_engine.py.
use algo_engine.Prelude.Eq.{string_eq}
use algo_engine.Prelude.{Bool, true, false, ◌&&◌, none, some, List, [], ◌∷◌, String, if◌then◌else◌}
use algo_engine.Prelude.Dict.{Dict, lookup, insert}
use algo_engine.Trading.Order.{
  OrderStatus, submitted, accepted, pending, partially_filled, filled, cancelled, rejected, expired,
}
use algo_engine.Trading.OrderManager.{discard}
use algo_engine.Trading.LiveEngine.{LiveEngine, has_broker}

-- A status after which `_sync_orders` drops an order.
abbrev pub is_final : OrderStatus → Bool
is_final filled = true
is_final cancelled = true
is_final rejected = true
is_final expired = true
is_final _ = false

abbrev pub status_eq : OrderStatus → OrderStatus → Bool
status_eq submitted submitted = true
status_eq accepted accepted = true
status_eq pending pending = true
status_eq partially_filled partially_filled = true
status_eq filled filled = true
status_eq cancelled cancelled = true
status_eq rejected rejected = true
status_eq expired expired = true
status_eq _ _ = false

module _ {S D : Type 0} where
  abbrev pub write_status : String → OrderStatus → LiveEngine S D → LiveEngine S D
  write_status id status e = elim (lookup id e.execution.order_manager.orders) [
    | none ↦ e
    | some o ↦ record e {
      execution = record e.execution {
        order_manager = record e.execution.order_manager {
          orders = insert id (record o { status = status }) e.execution.order_manager.orders;
        };
      };
    }
  ]

  -- One turn of `_sync_orders` with the broker's order of the id.
  unfoldable pub sync_order : String → OrderStatus → LiveEngine S D → LiveEngine S D
  sync_order id status e = elim (lookup id e.execution.order_manager.orders) [
    | none ↦ e
    | some o ↦
        if status_eq status o.status
        then e
        else (let e' = write_status id status e in
            if is_final status
            then record e' { pending_orders = discard id e'.pending_orders }
            else e')
  ]

  -- The loop of `_sync_orders`, with the broker's orders by their ids at the broker.
  unfoldable pub sync_each : Dict String OrderStatus → List String → LiveEngine S D → LiveEngine S D
  unfolding sync_order
  sync_each at_broker [] e = e
  sync_each at_broker (id ∷ ids) e = elim (lookup id at_broker) [
    | none ↦ sync_each at_broker ids e
    | some status ↦ sync_each at_broker ids (sync_order id status e)
  ]

  -- `_sync_orders`
  unfoldable pub sync_orders : Dict String OrderStatus → LiveEngine S D → LiveEngine S D
  unfolding sync_each
  sync_orders at_broker e =
      if e.is_connected && has_broker e.execution.broker
      then sync_each at_broker e.pending_orders e
      else e
