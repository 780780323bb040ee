-- ===== src/Trading/PositionManager.antt =====
-- `PositionManager` of src/trading/position_manager.py. The manager's dict shares its positions with
-- nothing that changes them, so a change of a position is a change of the dict's entry.
pub mod Holding
use algo_engine.Prelude.{
  ℕ, ◌+◌, ◌≡◌, Bool, true, false, not, ◌&&◌, Option, none, some, List, [], ◌∷◌, ◌++◌, String,
  if◌then◌else◌,
}
use algo_engine.Prelude.Eq.{Eq, ◌=?◌}
use algo_engine.Prelude.Dict.{Dict, lookup, insert, erase}
use algo_engine.Trading.Decimal.{Decimal}
use algo_engine.Trading.Order.{OrderSide, buy, sell, Fill}
use algo_engine.Trading.Position.{
  Position, Trade, side_eq, positive, is_long, is_short, gain, unrealized_pnl, add_fill, reduce,
  update_price, net_pnl,
}

pub record PositionManager (S D : Type 0) : Type 0 where
  pub positions : Dict S (Position S D)
  pub trades : List (Trade S D)
  pub trade_counter : ℕ

-- `PositionManager.__init__`
unfoldable pub no_positions : {S D : Type 0} → PositionManager S D
no_positions = record { positions = []; trades = []; trade_counter = 0 }

module _ {S D : Type 0} ⦃e : Eq S⦄ ⦃d : Decimal D⦄ where
  open d use {zero, add, eqb}

  -- The position that `process_fill` makes where there is none.
  abbrev pub empty_position : Fill S D → Position S D
  empty_position fill = record {
    symbol = fill.symbol;
    side = fill.side;
    quantity = zero;
    avg_entry_price = none;
    current_price = none;
    last_update_time = none;
    opened_at = none;
    updated_at = none;
    total_trades = 0;
    realized_pnl = zero;
  }

  abbrev pub position_of : Fill S D → PositionManager S D → Position S D
  position_of fill m = elim (lookup fill.symbol m.positions) [
    | none ↦ empty_position fill
    | some p ↦ p
  ]

  -- `is_reducing`
  unfoldable pub is_reducing : Fill S D → Position S D → Bool
  unfolding is_long side_eq
  is_reducing fill p =
      positive p.quantity && not (side_eq fill.side (if is_long p then buy else sell))

  -- `_calculate_realized_pnl`
  unfoldable pub calculate_realized_pnl : Position S D → Fill S D → D
  unfolding is_long gain
  calculate_realized_pnl p fill = elim p.avg_entry_price [
    | none ↦ zero
    | some avg ↦ gain (is_long p) fill.quantity avg fill.fill_price
  ]

  -- The entry price of the record of a trade; a price of zero counts as none.
  entry_price_of : Position S D → Fill S D → D
  entry_price_of p fill = elim p.avg_entry_price [
    | none ↦ fill.fill_price
    | some avg ↦ if eqb avg zero then fill.fill_price else avg
  ]

  unfoldable pub new_trade : ℕ → Position S D → Fill S D → Trade S D
  unfolding calculate_realized_pnl entry_price_of
  new_trade number p fill = record {
    trade_id = number;
    symbol = fill.symbol;
    entry_time = elim p.opened_at [ none ↦ fill.fill_time | some t ↦ t ];
    exit_time = fill.fill_time;
    side = p.side;
    quantity = fill.quantity;
    entry_price = entry_price_of p fill;
    exit_price = fill.fill_price;
    realized_pnl = calculate_realized_pnl p fill;
    commission = fill.commission;
    slippage = fill.slippage;
    exit_order_id = fill.order_id;
  }

  -- The branch of `process_fill` for a reducing fill.
  unfoldable pub reduce_position :
      Fill S D → Position S D → PositionManager S D → Option (Trade S D) × PositionManager S D
  unfolding new_trade reduce
  reduce_position fill p m =
      let trade = new_trade (m.trade_counter + 1) p fill in
      let p' = reduce fill.quantity fill.fill_price fill.fill_time p in
      (
        some trade,
        record m {
          trade_counter = m.trade_counter + 1;
          trades = m.trades ++ (trade ∷ []);
          positions =
              if positive p'.quantity
              then insert fill.symbol p' m.positions
              else erase fill.symbol m.positions;
        },
      )

  -- `process_fill`; `none` is the exception out of `add_fill`, which leaves the manager as it was.
  unfoldable pub process_fill :
      Fill S D → PositionManager S D → Option (Option (Trade S D) × PositionManager S D)
  unfolding is_reducing reduce_position add_fill
  process_fill fill m =
      let p = position_of fill m in
      if is_reducing fill p then some (reduce_position fill p m) else elim (add_fill fill p) [
        | none ↦ none
        | some p' ↦ some (none, record m { positions = insert fill.symbol p' m.positions })
      ]

  -- `update_price` of the manager
  unfoldable pub mark_price : S → D → ℕ → PositionManager S D → PositionManager S D
  unfolding update_price
  mark_price symbol price time m = elim (lookup symbol m.positions) [
    | none ↦ m
    | some p ↦ record m { positions = insert symbol (update_price price time p) m.positions }
  ]

  -- `get_position`
  unfoldable pub get_position : S → PositionManager S D → Option (Position S D)
  get_position symbol m = lookup symbol m.positions

  sum_unrealized : D → Dict S (Position S D) → D
  unfolding unrealized_pnl
  sum_unrealized total [] = total
  sum_unrealized total ((_, p) ∷ ps) = sum_unrealized (add total (unrealized_pnl p)) ps

  -- `get_unrealized_pnl`
  unfoldable pub get_unrealized_pnl : PositionManager S D → D
  unfolding sum_unrealized
  get_unrealized_pnl m = sum_unrealized zero m.positions

  sum_net : D → List (Trade S D) → D
  unfolding net_pnl
  sum_net total [] = total
  sum_net total (t ∷ ts) = sum_net (add total (net_pnl t)) ts

  -- `get_realized_pnl`
  unfoldable pub get_realized_pnl : PositionManager S D → D
  unfolding sum_net
  get_realized_pnl m = sum_net zero m.trades
