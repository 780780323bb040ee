-- ===== src/Portfolio.antt =====
-- `Portfolio` of src/portfolio/portfolio.py. A position that is handed in is a value: what its owner
-- does to it afterwards is a further `update_position`. Snapshots are left out, and with them returns
-- and exposures in floats.
pub mod Risk
pub mod Sync
pub mod Trades
pub mod Limits
mod Tests
use algo_engine.Prelude.{
  ℕ, Bool, true, false, not, Option, none, some, List, [], ◌∷◌, ◌++◌, if◌then◌else◌,
}
use algo_engine.Prelude.Eq.{Eq}
use algo_engine.Prelude.Dict.{Dict, lookup, insert, erase}
use algo_engine.Trading.Decimal.{Decimal}
use algo_engine.Trading.Order.{OrderSide, buy, sell}
use algo_engine.Trading.Position.{Position, Trade, positive, market_value, unrealized_pnl, net_pnl}

pub record Portfolio (S D : Type 0) : Type 0 where
  pub initial_cash : D
  pub cash : D
  pub positions : Dict S (Position S D)
  pub trades : List (Trade S D)

module _ {S D : Type 0} ⦃d : Decimal D⦄ where
  open d use {zero, add, sub, mul, leb, eqb}

  -- `Portfolio.__init__`
  unfoldable pub new_portfolio : D → Portfolio S D
  new_portfolio initial = record {
    initial_cash = initial;
    cash = initial;
    positions = [];
    trades = [];
  }

  -- The positions with a price.
  unfoldable pub sum_values : D → Dict S (Position S D) → D
  sum_values total [] = total
  sum_values total ((_, p) ∷ ps) = elim p.current_price [
    | none ↦ sum_values total ps
    | some _ ↦ sum_values (add total (market_value p)) ps
  ]

  unfoldable pub positions_value : Portfolio S D → D
  unfolding sum_values
  positions_value p = sum_values zero p.positions

  unfoldable pub total_value : Portfolio S D → D
  unfolding positions_value
  total_value p = add p.cash (positions_value p)

  unfoldable pub total_return : Portfolio S D → D
  unfolding total_value
  total_return p = sub (total_value p) p.initial_cash

  sum_unrealized_of : D → Dict S (Position S D) → D
  sum_unrealized_of total [] = total
  sum_unrealized_of total ((_, p) ∷ ps) = sum_unrealized_of (add total (unrealized_pnl p)) ps

  unfoldable pub unrealized_total : Portfolio S D → D
  unfolding sum_unrealized_of
  unrealized_total p = sum_unrealized_of zero p.positions

  sum_net_of : D → List (Trade S D) → D
  sum_net_of total [] = total
  sum_net_of total (t ∷ ts) = sum_net_of (add total (net_pnl t)) ts

  unfoldable pub realized_total : Portfolio S D → D
  unfolding sum_net_of
  realized_total p = sum_net_of zero p.trades

  unfoldable pub update_cash : D → Portfolio S D → Portfolio S D
  update_cash amount p = record p { cash = add p.cash amount }

  unfoldable pub record_trade : Trade S D → Portfolio S D → Portfolio S D
  record_trade t p =
      let value = mul t.quantity t.exit_price in
      let moved = elim (t.side) as (λ _. D) [ buy ↦ add p.cash value | sell ↦ sub p.cash value ] in
      record p { trades = p.trades ++ (t ∷ []); cash = sub moved (add t.commission t.slippage) }

  -- `get_buying_power` with its default margin requirement; `one` is Decimal("1.0").
  unfoldable pub get_buying_power : D → Portfolio S D → D
  get_buying_power one p = mul p.cash one

module _ {S D : Type 0} ⦃e : Eq S⦄ ⦃d : Decimal D⦄ where
  unfoldable pub position_for : S → Portfolio S D → Option (Position S D)
  position_for s p = lookup s p.positions

  unfoldable pub update_position : Position S D → Portfolio S D → Portfolio S D
  update_position q p = record p {
    positions =
        if positive q.quantity then insert q.symbol q p.positions else erase q.symbol p.positions;
  }
