-- ===== src/Portfolio/Risk.antt =====
-- `RiskManager` of src/risk/risk_manager.py. Rules and custom checks are functions, since a rule is a
-- class to be derived from. Percentages, which are floats, are taken as decimals, and how they are
-- computed is an argument. A reason is named after the check that gives it.
use algo_engine.Prelude.{
  Bool, true, false, not, ◌||◌, Option, none, some, List, [], ◌∷◌, ◌++◌, if◌then◌else◌,
}
use algo_engine.Prelude.Eq.{Eq}
use algo_engine.Trading.Decimal.{Decimal}
use algo_engine.Trading.Order.{Order, buy, sell}
use algo_engine.Portfolio.{Portfolio, total_value, positions_value, position_for, get_buying_power}

-- `float(a) / float(b) * 100`, `(a - b) / a * 100`, and Decimal("1.0").
pub record Percentages (D : Type 0) : Type 0 where
  pub percent : D → D → D
  pub drawdown : D → D → D
  pub one : D

pub data Reason : Type 0 where
  trading_halted position_size concentration exposure buying_power rule_broken check_failed : Reason

pub record RiskRule (S D : Type 0) : Type 0 where
  pub enabled : Bool
  pub check : Portfolio S D → Order S D → D → Bool

pub record RiskManager (S D : Type 0) : Type 0 where
  pub portfolio : Portfolio S D
  pub rules : List (RiskRule S D)
  pub custom_checks : List (Portfolio S D → Order S D → D → Bool)
  pub max_position_size_percent : D
  pub max_total_exposure_percent : D
  pub max_drawdown_percent : D
  pub max_concentration_percent : D

module _ {S D : Type 0} ⦃e : Eq S⦄ ⦃d : Decimal D⦄ where
  open d use {zero, add, sub, mul, div, leb, eqb}

  unfoldable pub add_risk_rule : RiskRule S D → RiskManager S D → RiskManager S D
  add_risk_rule rule m = record m { rules = m.rules ++ (rule ∷ []) }

  unfoldable pub add_custom_check :
      (Portfolio S D → Order S D → D → Bool) → RiskManager S D → RiskManager S D
  add_custom_check check m = record m { custom_checks = m.custom_checks ++ (check ∷ []) }

  -- `_check_drawdown_limit`
  unfoldable pub check_drawdown_limit : Percentages D → RiskManager S D → Bool
  check_drawdown_limit f m =
      if eqb m.portfolio.initial_cash zero
      then true
      else not (
          leb m.max_drawdown_percent
            (f.drawdown m.portfolio.initial_cash (total_value m.portfolio)))

  -- A value may be this much of the portfolio; it may be anything if the portfolio is worth nothing.
  abbrev pub within : Percentages D → RiskManager S D → D → D → Bool
  within f m value limit =
      if eqb (total_value m.portfolio) zero
      then true
      else leb (f.percent value (total_value m.portfolio)) limit

  -- A price or a quantity of zero passes these checks.
  abbrev pub is_void : D → Order S D → Bool
  is_void price o = eqb price zero || eqb o.quantity zero

  -- `_check_position_size`
  unfoldable pub check_position_size : Percentages D → RiskManager S D → Order S D → D → Bool
  check_position_size f m o price =
      if is_void price o
      then true
      else within f m (mul o.quantity price) m.max_position_size_percent

  -- What `_check_concentration_limit` takes the holding to be with the order.
  abbrev pub holding_with : RiskManager S D → Order S D → D
  holding_with m o =
      let held = elim (position_for o.symbol m.portfolio) as (λ _. D) [
        | none ↦ zero
        | some p ↦ p.quantity
      ] in
      elim (o.side) [ buy ↦ add held o.quantity | sell ↦ held ]

  -- `_check_concentration_limit`
  unfoldable pub check_concentration_limit : Percentages D → RiskManager S D → Order S D → D → Bool
  check_concentration_limit f m o price =
      if eqb price zero
      then true
      else within f m (mul (holding_with m o) price) m.max_concentration_percent

  -- `_check_exposure_limit`
  unfoldable pub check_exposure_limit : Percentages D → RiskManager S D → Order S D → D → Bool
  check_exposure_limit f m o price =
      if is_void price o
      then true
      else within f m (add (positions_value m.portfolio) (mul o.quantity price))
          m.max_total_exposure_percent

  -- `_check_buying_power`
  unfoldable pub check_buying_power : Percentages D → RiskManager S D → Order S D → D → Bool
  check_buying_power f m o price =
      if is_void price o
      then true
      else leb (mul o.quantity price) (get_buying_power f.one m.portfolio)

  unfoldable pub rules_pass : List (RiskRule S D) → Portfolio S D → Order S D → D → Bool
  rules_pass [] p o price = true
  rules_pass (r ∷ rs) p o price =
      let rest = rules_pass rs p o price in
      if r.enabled then (if r.check p o price then rest else false) else rest

  unfoldable pub checks_pass :
      List (Portfolio S D → Order S D → D → Bool) → Portfolio S D → Order S D → D → Bool
  checks_pass [] p o price = true
  checks_pass (c ∷ cs) p o price =
      let rest = checks_pass cs p o price in if c p o price then rest else false

  -- `check_order`: the first reason against it, if there is one.
  unfoldable pub check_order : Percentages D → RiskManager S D → Order S D → D → Option Reason
  unfolding check_drawdown_limit check_position_size check_concentration_limit check_exposure_limit
      check_buying_power rules_pass checks_pass
  check_order f m o price =
      if not (check_drawdown_limit f m)
      then some trading_halted
      else if not (check_position_size f m o price)
      then some position_size
      else if not (check_concentration_limit f m o price)
      then some concentration
      else if not (check_exposure_limit f m o price)
      then some exposure
      else if not (check_buying_power f m o price)
      then some buying_power
      else if not (rules_pass m.rules m.portfolio o price)
      then some rule_broken
      else if not (checks_pass m.custom_checks m.portfolio o price)
      then some check_failed
      else none

  -- `calculate_position_size`, by the two percentages as decimals and the truncation to whole shares;
  -- `none` is an exception of the division.
  unfoldable pub calculate_position_size : (D → D) → D → D → D → RiskManager S D → Option D
  calculate_position_size whole risk_per_trade stop_loss price m =
      let risk_per_share = mul price stop_loss in
      if eqb risk_per_share zero
      then some zero
      else elim (div (mul (total_value m.portfolio) risk_per_trade) risk_per_share) [
        | none ↦ none
        | some shares ↦ some (whole shares)
      ]
