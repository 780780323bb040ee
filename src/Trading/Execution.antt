-- ===== src/Trading/Execution.antt =====
-- `ExecutionEngine` of src/trading/execution_engine.py, over the order manager and the position manager.
-- The broker is a parameter: whether there is one and it is connected, and how a call of it ends; it
-- leaves the orders to the engine. A fill's id is made from a number by `label`. Where processing a
-- tick raises, the result is `none`, and what it leaves is not modelled.
pub mod Filled
pub mod Filling
pub mod Targets
pub mod Pending
pub mod Prices
pub mod Rejected
mod Tests
use algo_engine.Prelude.{
  ℕ, ◌+◌, Bool, true, false, not, ◌&&◌, Option, none, some, List, [], ◌∷◌, ◌++◌, String,
  if◌then◌else◌,
}
use algo_engine.Prelude.Eq.{Eq, ◌=?◌, string_eq}
use algo_engine.Prelude.Dict.{Dict, lookup, insert, contains}
use algo_engine.Trading.Decimal.{Decimal}
use algo_engine.Trading.Order.{
  OrderType, market, limit, stop, stop_limit, OrderSide, buy, sell, OrderStatus, pending, accepted,
  rejected, Order, Fill,
}
use algo_engine.Trading.Position.{Trade}
use algo_engine.Trading.OrderManager.{
  OrderManager, new_manager, register_order, get_active_orders, process_fill, cancel_order,
  cancel_all_orders,
}
use algo_engine.Trading.PositionManager.{
  PositionManager, no_positions, process_fill as book_position, mark_price,
}
use algo_engine.Trading.Market.{
  Literals, Tick, CommissionModel, SlippageModel, mid_price, commission_for, slippage_for, smaller,
  larger,
}

-- The broker, if there is one, by whether it is connected.
pub data Broker : Type 0 where
  no_broker disconnected connected : Broker

abbrev pub is_connected : Broker → Bool
is_connected connected = true
is_connected _ = false

abbrev pub is_absent : Broker → Bool
is_absent no_broker = true
is_absent _ = false

abbrev pub is_pending : OrderStatus → Bool
is_pending pending = true
is_pending _ = false

pub record ExecutionEngine (S D : Type 0) : Type 0 where
  pub broker : Broker
  pub commission_model : CommissionModel D
  pub slippage_model : SlippageModel D
  pub order_manager : OrderManager S D
  pub position_manager : PositionManager S D
  pub last_prices : Dict S (Tick S D)
  -- the fills that the callbacks are called with, the earliest first
  pub delivered : List (Fill S D)
  pub fills_made : ℕ

module _ {S D : Type 0} where
  -- `ExecutionEngine.__init__`
  unfoldable pub new_engine : Broker → CommissionModel D → SlippageModel D → ExecutionEngine S D
  unfolding new_manager no_positions
  new_engine broker commission slippage = record {
    broker = broker;
    commission_model = commission;
    slippage_model = slippage;
    order_manager = new_manager;
    position_manager = no_positions;
    last_prices = [];
    delivered = [];
    fills_made = 0;
  }

  -- `order.status = …` on the object that the manager has too.
  abbrev pub set_status : Order S D → OrderStatus → ExecutionEngine S D → ExecutionEngine S D
  set_status o status e = record e {
    order_manager = record e.order_manager {
      orders = insert o.order_id (record o { status = status }) e.order_manager.orders;
    };
  }

  -- What `submit_order` makes of the broker's answer; `none` is an exception out of the broker.
  abbrev pub settle : Option Bool → Order S D → ExecutionEngine S D → Bool × ExecutionEngine S D
  settle none o e = (false, set_status o rejected e)
  settle (some false) o e = (false, set_status o rejected e)
  settle (some true) o e = (true, set_status o accepted e)

  -- `cancel_order`; what the broker answers makes no difference.
  unfoldable pub cancel : ℕ → String → ExecutionEngine S D → Bool × ExecutionEngine S D
  unfolding cancel_order
  cancel now id e =
      let (done, m) = cancel_order now id e.order_manager in (done, record e { order_manager = m })

  -- `start` and `stop`, by what the broker's `connect` and `disconnect` come to.
  unfoldable pub start : Bool → ExecutionEngine S D → ExecutionEngine S D
  start connects e = elim e.broker [
    | disconnected ↦ record e { broker = if connects then connected else disconnected }
    | _ ↦ e
  ]

  unfoldable pub stop_engine : Bool → ExecutionEngine S D → ExecutionEngine S D
  stop_engine leaves e = elim e.broker [
    | connected ↦ record e { broker = if leaves then disconnected else connected }
    | _ ↦ e
  ]

module _ {S D : Type 0} ⦃eq : Eq S⦄ where
  -- `submit_order`
  unfoldable pub submit : Option Bool → Order S D → ExecutionEngine S D → Bool × ExecutionEngine S D
  unfolding register_order
  submit answer o e =
      let e' = record e { order_manager = register_order o e.order_manager } in
      if is_connected e.broker then settle answer o e' else (true, set_status o pending e')

  unfoldable pub cancel_all : ℕ → Option S → ExecutionEngine S D → ℕ × ExecutionEngine S D
  unfolding cancel_all_orders
  cancel_all now symbol e =
      let (n, m) = cancel_all_orders now symbol e.order_manager in
      (n, record e { order_manager = m })

  abbrev pub only_pending : List (Order S D) → List (Order S D)
  only_pending [] = []
  only_pending (o ∷ os) =
      let rest = only_pending os in if is_pending o.status then o ∷ rest else rest

  unfoldable pub pending_orders : S → ExecutionEngine S D → List (Order S D)
  unfolding get_active_orders
  pending_orders symbol e = only_pending (get_active_orders (some symbol) e.order_manager)

module _ {D : Type 0} ⦃d : Decimal D⦄ where
  open d use {add, sub}

  abbrev pub shift_price : OrderSide → D → D → D
  shift_price buy price slippage = add price slippage
  shift_price sell price slippage = sub price slippage

module _ {S D : Type 0} ⦃d : Decimal D⦄ ⦃l : Literals D⦄ where
  open d use {zero, add, leb}

  -- The price that an order fills at by its type, its side, its limit and its stop price, if it
  -- does; `none` is the exception of a comparison with a price that is missing.
  abbrev pub price_at : OrderType → OrderSide → Option D → Option D → Tick S D → Option (Option D)
  price_at market side lim trigger t = elim (mid_price t) [ none ↦ none | some p ↦ some (some p) ]
  price_at limit side none trigger t = none
  price_at limit buy (some p) trigger t =
      some (if leb t.ask_price p then some (smaller t.ask_price p) else none)
  price_at limit sell (some p) trigger t =
      some (if leb p t.bid_price then some (larger t.bid_price p) else none)
  price_at stop side lim none t = none
  price_at stop buy lim (some p) t = some (if leb p t.ask_price then some t.ask_price else none)
  price_at stop sell lim (some p) t = some (if leb t.bid_price p then some t.bid_price else none)
  price_at stop_limit side lim trigger t = some none

  abbrev pub fill_at : String → Order S D → D → Tick S D → Fill S D
  fill_at id o price t = record {
    order_id = o.order_id;
    symbol = o.symbol;
    side = o.side;
    quantity = o.remaining_quantity;
    fill_price = price;
    fill_time = t.timestamp;
    fill_id = id;
    commission = zero;
    slippage = zero;
  }

  -- `_apply_costs`
  unfoldable pub apply_costs :
      CommissionModel D → SlippageModel D → Fill S D → Tick S D → Option (Fill S D)
  unfolding commission_for slippage_for
  apply_costs commission slippage f t = elim (commission_for commission f.quantity f.fill_price) [
    | none ↦ none
    | some c ↦ elim (slippage_for slippage f.fill_price f.quantity (add t.bid_size t.ask_size)) [
      | none ↦ none
      | some s ↦ some (record f {
        commission = c;
        slippage = s;
        fill_price = shift_price f.side f.fill_price s;
      })
    ]
  ]

  -- `_try_fill_order`, with the models of the engine
  unfoldable pub try_fill_order :
      CommissionModel D
      → SlippageModel D
      → String
      → Order S D
      → Tick S D
      → Option (Option (Fill S D))
  unfolding apply_costs
  try_fill_order commission slippage id o t =
      elim (price_at o.order_type o.side o.limit_price o.stop_price t) [
        | none ↦ none
        | some none ↦ some none
        | some (some p) ↦ elim (apply_costs commission slippage (fill_at id o p t) t) [
          | none ↦ none
          | some f ↦ some (some f)
        ]
      ]

module _ {S D : Type 0} ⦃eq : Eq S⦄ ⦃d : Decimal D⦄ where
  -- `_on_fill`, up to `EventType.FILL`: there is no such member, so that what is raised there, which the
  -- order manager swallows, keeps the event from being emitted.
  unfoldable pub on_fill : Fill S D → ExecutionEngine S D → ExecutionEngine S D
  unfolding book_position
  on_fill f e = elim (book_position f e.position_manager) [
    | none ↦ e
    | some (trade, m) ↦ record e { position_manager = m }
  ]

  -- `process_fill` of the order manager; of its callbacks `_on_fill` runs here, and the fill is kept
  -- for the others, which leave the engine alone.
  unfoldable pub receive_fill :
      ℕ → String → Fill S D → ExecutionEngine S D → Option (ExecutionEngine S D)
  unfolding process_fill on_fill
  receive_fill now id f e = elim (process_fill now id f e.order_manager) [
    | none ↦ none
    | some m ↦ some (
        if contains id e.order_manager.orders
        then on_fill f (record e { order_manager = m; delivered = e.delivered ++ (f ∷ []) })
        else record e { order_manager = m })
  ]

module _ {S D : Type 0} (label : ℕ → String) ⦃eq : Eq S⦄ ⦃d : Decimal D⦄ ⦃l : Literals D⦄ where
  -- The loop of `_process_pending_orders`; no order is met twice in it.
  unfoldable pub fill_each :
      ℕ → Tick S D → List (Order S D) → ExecutionEngine S D → Option (ExecutionEngine S D)
  unfolding try_fill_order receive_fill
  fill_each now t [] e = some e
  fill_each now t (o ∷ os) e =
      elim (try_fill_order e.commission_model e.slippage_model (label e.fills_made) o t) [
        | none ↦ none
        | some none ↦ fill_each now t os e
        | some (some f) ↦
            elim (receive_fill now o.order_id f (record e { fills_made = e.fills_made + 1 })) [
              | none ↦ none
              | some e' ↦ fill_each now t os e'
            ]
      ]

  -- `process_tick`
  unfoldable pub process_tick : ℕ → Tick S D → ExecutionEngine S D → Option (ExecutionEngine S D)
  unfolding mid_price mark_price fill_each pending_orders
  process_tick now t e = elim (mid_price t) [
    | none ↦ none
    | some mid ↦
        let e' = record e {
          last_prices = insert t.symbol t e.last_prices;
          position_manager = mark_price t.symbol mid t.timestamp e.position_manager;
        } in
        if is_absent e.broker then fill_each now t (pending_orders t.symbol e') e' else some e'
  ]
