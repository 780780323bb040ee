-- ===== src/Portfolio/Tests.antt =====
-- The theorems about src/portfolio/portfolio.py and src/risk/risk_manager.py at inputs that meet their
-- hypotheses, with whole numbers for decimals and floats.
use algo_engine.Prelude.{◌≡◌, refl, Bool, true, false, none, some, [], ◌∷◌, String, ◌⊎◌, All, arith}
use algo_engine.Prelude.Eq.{string_eq}
use algo_engine.Prelude.Int.{ℤ, pos, ◌+ℤ◌, ◌-ℤ◌, leb_ℤ}
use algo_engine.Trading.Decimal.{int_decimal, mul_ℤ}
use algo_engine.Trading.Order.{OrderSide, sell, Order, buy, market, day, submitted}
use algo_engine.Trading.Position.{Position, Trade, net_pnl, gain}
use algo_engine.Portfolio.{
  position_for, Portfolio, new_portfolio, record_trade, update_cash, total_value, get_buying_power,
  positions_value,
}
use algo_engine.Portfolio.Risk.{Percentages, RiskManager, RiskRule, check_order, holding_with}
use algo_engine.Prelude.Dict.{lookup}
use algo_engine.Portfolio.Sync.{
  Gaps, SyncConfig, Work, magnitude, compare_positions, reconcile_differences,
}
use algo_engine.Portfolio.Sync.Reconciled.{reconcile-compare}
use algo_engine.Portfolio.Limits.{check_order_lem}
use algo_engine.Portfolio.Trades.{ℤ-IsExactProduct, round_trip}

abbrev account : Portfolio String ℤ
unfolding new_portfolio
account = new_portfolio (pos 1000)

abbrev trade : Trade String ℤ
trade = record {
  trade_id = 1;
  symbol = "AUDUSD";
  entry_time = 1;
  exit_time = 2;
  side = buy;
  quantity = pos 10;
  entry_price = pos 7;
  exit_price = pos 9;
  realized_pnl = pos 20;
  commission = pos 1;
  slippage = pos 2;
  exit_order_id = "o2";
}

-- 1000 - 70 + 90 - 3 is 1000 + 17.
round_trip_example :
    (record_trade trade (update_cash (pos 0 -ℤ mul_ℤ (pos 10) (pos 7)) account)).cash
    ≡ account.cash +ℤ net_pnl trade
unfolding gain ◌-ℤ◌
round_trip_example = round_trip ℤ-IsExactProduct trade account true refl refl

-- Rounded towards zero.
abbrev percent_of : ℤ → ℤ → ℤ
percent_of a b = elim (int_decimal.div (mul_ℤ a (pos 100)) b) as (λ _. ℤ) [
  | none ↦ pos 0
  | some x ↦ x
]

abbrev percentages : Percentages ℤ
percentages = record { percent = percent_of; drawdown = λ a b. percent_of (a -ℤ b) a; one = pos 1 }

abbrev agrees : Portfolio String ℤ → Order String ℤ → ℤ → Bool
agrees p o price = true

abbrev manager : RiskManager String ℤ
manager = record {
  portfolio = account;
  rules = record { enabled = true; check = agrees } ∷ [];
  custom_checks = agrees ∷ [];
  max_position_size_percent = pos 10;
  max_total_exposure_percent = pos 100;
  max_drawdown_percent = pos 20;
  max_concentration_percent = pos 25;
}

abbrev order : Order String ℤ
order = record {
  symbol = "AUDUSD";
  side = buy;
  quantity = pos 10;
  order_type = market;
  limit_price = none;
  stop_price = none;
  time_in_force = day;
  order_id = "o1";
  status = submitted;
  filled_quantity = pos 0;
  remaining_quantity = pos 10;
  avg_fill_price = none;
  updated_at = none;
  filled_at = none;
  cancelled_at = none;
}

passes : check_order percentages manager order (pos 5) ≡ none
unfolding check_order account total_value get_buying_power position_for ◌+ℤ◌ ◌-ℤ◌
passes = refl

not_void : int_decimal.eqb (total_value account) (pos 0) ≡ false
unfolding total_value account ◌+ℤ◌
not_void = refl

check_order_lem_example :
    let value = mul_ℤ order.quantity (pos 5) in
    let worth = total_value manager.portfolio in
    (leb_ℤ value (mul_ℤ manager.portfolio.cash percentages.one) ≡ true)
    × (leb_ℤ (percentages.percent value worth) manager.max_position_size_percent ≡ true)
    × (leb_ℤ
          (percentages.percent (positions_value manager.portfolio +ℤ value) worth)
          manager.max_total_exposure_percent
        ≡ true)
    × (leb_ℤ
          (percentages.percent (mul_ℤ (holding_with manager order) (pos 5)) worth)
          manager.max_concentration_percent
        ≡ true)
    × All
        (λ (r : RiskRule String ℤ).
          (r.enabled ≡ false) ⊎ (r.check manager.portfolio order (pos 5) ≡ true))
        manager.rules
    × All
        (λ (c : Portfolio String ℤ → Order String ℤ → ℤ → Bool).
          c manager.portfolio order (pos 5) ≡ true)
        manager.custom_checks
check_order_lem_example =
    check_order_lem percentages manager order (pos 5) passes refl refl not_void

-- Gaps as plain differences.
abbrev gaps : Gaps ℤ
gaps = record { percent = λ a b. pos 0; price_gap = λ a b. magnitude (a -ℤ b); hundred = pos 100 }

abbrev sync_config : SyncConfig ℤ
sync_config = record {
  quantity_tolerance = pos 0;
  price_tolerance_pct = pos 1;
  auto_reconcile = true;
  max_log_entries = 10;
  reconcile_on_critical = false;
  max_quantity_diff_pct = pos 5;
}

abbrev holding : OrderSide → ℤ → ℤ → Position String ℤ
holding side quantity price = record {
  symbol = "AUDUSD";
  side = side;
  quantity = quantity;
  avg_entry_price = some price;
  current_price = none;
  last_update_time = none;
  opened_at = none;
  updated_at = none;
  total_trades = 0;
  realized_pnl = pos 0;
}

abbrev work : Work String ℤ
work = record { book = ("AUDUSD", holding sell (pos 3) (pos 9)) ∷ []; local_keys = "AUDUSD" ∷ [] }

no_gap : (a b : ℤ) → leb_ℤ (pos 0) b ≡ true → leb_ℤ (magnitude (a -ℤ a)) b ≡ true
unfolding ◌-ℤ◌
no_gap a b h = ground arith

reconcile-compare_example :
    let b = holding buy (pos 5) (pos 20) in
    let fs =
      compare_positions gaps sync_config "AUDUSD" (some b) (some (holding sell (pos 3) (pos 9))) in
    (l : Position String ℤ) × (lookup "AUDUSD" (reconcile_differences fs work).1.book ≡ some l)
    × (compare_positions gaps sync_config "AUDUSD" (some b) (some l) ≡ [])
reconcile-compare_example =
    reconcile-compare gaps sync_config "AUDUSD" (holding buy (pos 5) (pos 20))
      (holding sell (pos 3) (pos 9)) work (λ a. no_gap a (pos 0) refl) (λ a. no_gap a (pos 1) refl)
      refl refl
