-- ===== src/Trading/Execution/Prices.antt =====
-- The prices at which src/trading/execution_engine.py fills orders.
use algo_engine.Prelude.{◌≡◌, refl, true, Option, none, some, String, arith, Option-cases, inl, inr}
use algo_engine.Trading.Decimal.{Decimal}
use algo_engine.Trading.Order.{
  OrderType, market, limit, stop, stop_limit, OrderSide, buy, sell, Order, Fill,
}
use algo_engine.Trading.Market.{Literals, Tick, CommissionModel, SlippageModel, mid_price}
use algo_engine.Trading.Execution.{price_at, shift_price, fill_at, apply_costs, try_fill_order}

module _ {S D : Type 0} ⦃d : Decimal D⦄ ⦃l : Literals D⦄ where
  open d use {leb}

  -- The market is at an order's price, by its side: at its limit or better, or at its stop or worse.
  abbrev pub IsAt : OrderType → OrderSide → Option D → Option D → Tick S D → D → Type 0
  IsAt market side lim trigger t price = mid_price t ≡ some price
  IsAt limit buy lim trigger t price =
      (p : D) × (lim ≡ some p) × (leb t.ask_price p ≡ true) × (price ≡ t.ask_price)
  IsAt limit sell lim trigger t price =
      (p : D) × (lim ≡ some p) × (leb p t.bid_price ≡ true) × (price ≡ t.bid_price)
  IsAt stop buy lim trigger t price =
      (p : D) × (trigger ≡ some p) × (leb p t.ask_price ≡ true) × (price ≡ t.ask_price)
  IsAt stop sell lim trigger t price =
      (p : D) × (trigger ≡ some p) × (leb t.bid_price p ≡ true) × (price ≡ t.bid_price)
  IsAt stop_limit side lim trigger t price = ⊥

  price_at_lem :
      (k : OrderType) (side : OrderSide) (lim trigger : Option D) (t : Tick S D) {p : D}
      → price_at k side lim trigger t ≡ some (some p)
      → IsAt k side lim trigger t p
  price_at_lem market side lim trigger t h = elim (Option-cases (mid_price t)) [
    | inl failed ↦ absurd (let wrong : ⊥ = ground arith in wrong)
    | inr (p, found) ↦ ground arith
  ]
  price_at_lem limit buy none trigger t h = ground arith
  price_at_lem limit sell none trigger t h = ground arith
  price_at_lem limit buy (some p) trigger t h = (p, refl, ground arith, ground arith)
  price_at_lem limit sell (some p) trigger t h = (p, refl, ground arith, ground arith)
  price_at_lem stop buy lim none t h = ground arith
  price_at_lem stop sell lim none t h = ground arith
  price_at_lem stop buy lim (some p) t h = (p, refl, ground arith, ground arith)
  price_at_lem stop sell lim (some p) t h = (p, refl, ground arith, ground arith)
  price_at_lem stop_limit side lim trigger t h = ground arith

  apply_costs_lem :
      (c : CommissionModel D) (s : SlippageModel D) (f : Fill S D) (t : Tick S D) {g : Fill S D}
      → apply_costs c s f t ≡ some g
      → (g.fill_price ≡ shift_price f.side f.fill_price g.slippage)
        × (g.quantity ≡ f.quantity)
        × (g.side ≡ f.side)
        × (g.order_id ≡ f.order_id)
  unfolding apply_costs
  apply_costs_lem c s f t h = ground arith

  -- Where trying an order at a tick gives a fill, the fill is of the order, of its side and of all
  -- that remains of it, and its price is moved by its slippage, up for a buyer and down for a
  -- seller, from a price that the market has at the order's terms: the mid price for a market order, the ask at most
  -- the limit of a buyer and the bid at least the limit of a seller for a limit order, the ask at
  -- least the stop price of a buyer and the bid at most that of a seller for a stop order. A stop-limit order has no fill.
  pub try_fill_order_lem :
      (c : CommissionModel D) (s : SlippageModel D) (id : String) (o : Order S D) (t : Tick S D)
      {f : Fill S D}
      → try_fill_order c s id o t ≡ some (some f)
      → (p : D) × IsAt o.order_type o.side o.limit_price o.stop_price t p
        × (f.fill_price ≡ shift_price o.side p f.slippage)
        × (f.quantity ≡ o.remaining_quantity)
        × (f.side ≡ o.side)
        × (f.order_id ≡ o.order_id)
  unfolding try_fill_order
  try_fill_order_lem c s id o t {f} h =
      elim (Option-cases (price_at o.order_type o.side o.limit_price o.stop_price t)) [
        | inl failed ↦ absurd (let wrong : ⊥ = ground arith in wrong)
        | inr (none, waits) ↦ absurd (let wrong : ⊥ = ground arith in wrong)
        | inr (some p, found) ↦
            let made : apply_costs c s (fill_at id o p t) t ≡ some f = ground arith in
            let (price, quantity, side, order) = apply_costs_lem c s (fill_at id o p t) t made in
            (
              p,
              price_at_lem o.order_type o.side o.limit_price o.stop_price t found,
              price,
              quantity,
              side,
              order,
            )
      ]
