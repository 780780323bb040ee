-- ===== src/Trading/Position.antt =====
-- `Position` and `Trade` of src/trading/models.py. A trade's id is its number; the fields of a trade
-- that nothing fills in are left out.
use algo_engine.Prelude.{
  ℕ, ◌+◌, Bool, true, false, not, ◌&&◌, Option, none, some, String, if◌then◌else◌,
}
use algo_engine.Trading.Decimal.{Decimal}
use algo_engine.Trading.Order.{OrderSide, buy, sell, Fill}

pub record Position (S D : Type 0) : Type 0 where
  pub symbol : S
  pub side : OrderSide
  pub quantity : D
  pub avg_entry_price : Option D
  pub current_price : Option D
  pub last_update_time : Option ℕ
  pub opened_at : Option ℕ
  pub updated_at : Option ℕ
  pub total_trades : ℕ
  pub realized_pnl : D

pub record Trade (S D : Type 0) : Type 0 where
  pub trade_id : ℕ
  pub symbol : S
  pub entry_time : ℕ
  pub exit_time : ℕ
  pub side : OrderSide
  pub quantity : D
  pub entry_price : D
  pub exit_price : D
  pub realized_pnl : D
  pub commission : D
  pub slippage : D
  pub exit_order_id : String

unfoldable pub side_eq : OrderSide → OrderSide → Bool
side_eq buy buy = true
side_eq sell sell = true
side_eq _ _ = false

module _ {D : Type 0} ⦃d : Decimal D⦄ where
  open d use {zero, sub, mul, leb}

  -- `x > 0`
  abbrev pub positive : D → Bool
  positive x = not (leb x zero)

  -- The gain of a quantity between an entry and an exit price, by the side.
  unfoldable pub gain : Bool → D → D → D → D
  gain long quantity entry exit =
      if long then mul quantity (sub exit entry) else mul quantity (sub entry exit)

module _ {S D : Type 0} ⦃d : Decimal D⦄ where
  open d use {zero, add, sub, mul, div, leb, eqb}

  unfoldable pub is_long : Position S D → Bool
  unfolding side_eq
  is_long p = side_eq p.side buy && positive p.quantity

  unfoldable pub is_short : Position S D → Bool
  unfolding side_eq
  is_short p = side_eq p.side sell && positive p.quantity

  unfoldable pub market_value : Position S D → D
  market_value p = elim p.current_price [ none ↦ zero | some price ↦ mul p.quantity price ]

  unfoldable pub unrealized_pnl : Position S D → D
  unfolding is_long gain
  unrealized_pnl p = elim p.avg_entry_price [
    | none ↦ zero
    | some entry ↦ elim p.current_price [
      | none ↦ zero
      | some price ↦ gain (is_long p) p.quantity entry price
    ]
  ]

  -- The end of `add_fill`.
  abbrev grow : Fill S D → Position S D → Position S D
  grow fill p = record p {
    quantity = add p.quantity fill.quantity;
    total_trades = p.total_trades + 1;
    updated_at = some fill.fill_time;
  }

  -- `add_fill`; `none` is the exception of the division, before any field is written.
  unfoldable pub add_fill : Fill S D → Position S D → Option (Position S D)
  add_fill fill p = elim p.avg_entry_price [
    | none ↦ some (
        grow fill
          (record p { avg_entry_price = some fill.fill_price; opened_at = some fill.fill_time }))
    | some avg ↦
        elim (div (add (mul p.quantity avg) (mul fill.quantity fill.fill_price))
          (add p.quantity fill.quantity)) [
            | none ↦ none
            | some avg' ↦ some (grow fill (record p { avg_entry_price = some avg' }))
          ]
  ]

  -- The gain that `reduce` books for a quantity; a price of zero counts as none.
  booked_gain : D → D → Position S D → D
  unfolding is_long gain
  booked_gain quantity price p = elim p.avg_entry_price [
    | none ↦ p.realized_pnl
    | some avg ↦
        if eqb avg zero
        then p.realized_pnl
        else add p.realized_pnl (gain (is_long p) quantity avg price)
  ]

  -- `reduce`
  unfoldable pub reduce : D → D → ℕ → Position S D → Position S D
  unfolding booked_gain
  reduce quantity price time p =
      let taken = if leb p.quantity quantity then p.quantity else quantity in
      record p {
        realized_pnl = booked_gain taken price p;
        quantity = sub p.quantity taken;
        total_trades = p.total_trades + 1;
        updated_at = some time;
      }

  -- `update_price`
  unfoldable pub update_price : D → ℕ → Position S D → Position S D
  update_price price time p = record p { current_price = some price; last_update_time = some time }

  -- `Trade.gross_pnl` and `Trade.net_pnl`
  unfoldable pub gross_pnl : Trade S D → D
  gross_pnl t = add (add t.realized_pnl t.commission) t.slippage

  unfoldable pub net_pnl : Trade S D → D
  net_pnl t = sub (sub t.realized_pnl t.commission) t.slippage
