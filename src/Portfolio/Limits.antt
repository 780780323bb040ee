-- ===== src/Portfolio/Limits.antt =====
-- What an order that passes `check_order` respects (src/risk/risk_manager.py).
use algo_engine.Prelude.{◌≡◌, Bool, true, false, none, List, [], ◌∷◌, arith, All, ◌⊎◌}
use algo_engine.Prelude.Eq.{Eq}
use algo_engine.Trading.Decimal.{Decimal}
use algo_engine.Trading.Order.{Order}
use algo_engine.Portfolio.{Portfolio, total_value, positions_value, get_buying_power}
use algo_engine.Portfolio.Risk.{
  Percentages, RiskRule, RiskManager, check_order, rules_pass, checks_pass, holding_with,
  check_drawdown_limit, check_position_size, check_concentration_limit, check_exposure_limit,
  check_buying_power,
}

module _ {S D : Type 0} ⦃e : Eq S⦄ ⦃d : Decimal D⦄ where
  open d use {add, mul, leb, eqb}

  rules_pass-All :
      (rs : List (RiskRule S D)) (p : Portfolio S D) (o : Order S D) (price : D)
      → rules_pass rs p o price ≡ true
      → All (λ r. (r.enabled ≡ false) ⊎ (r.check p o price ≡ true)) rs
  unfolding rules_pass
  rules_pass-All [] p o price h = tt
  rules_pass-All (r ∷ rs) p o price h = (ground arith, rules_pass-All rs p o price (ground arith))

  checks_pass-All :
      (cs : List (Portfolio S D → Order S D → D → Bool)) (p : Portfolio S D) (o : Order S D)
      (price : D)
      → checks_pass cs p o price ≡ true
      → All (λ c. c p o price ≡ true) cs
  unfolding checks_pass
  checks_pass-All [] p o price h = tt
  checks_pass-All (c ∷ cs) p o price h = (ground arith, checks_pass-All cs p o price (ground arith))

  -- All checks of an order that passes have passed.
  check_order_all :
      (f : Percentages D) (m : RiskManager S D) (o : Order S D) (price : D)
      → check_order f m o price ≡ none
      → (check_drawdown_limit f m ≡ true)
        × (check_position_size f m o price ≡ true)
        × (check_concentration_limit f m o price ≡ true)
        × (check_exposure_limit f m o price ≡ true)
        × (check_buying_power f m o price ≡ true)
        × (rules_pass m.rules m.portfolio o price ≡ true)
        × (checks_pass m.custom_checks m.portfolio o price ≡ true)
  unfolding check_order
  check_order_all f m o price h = ground arith

  -- An order that passes check_order, whose price and quantity are not zero, with a portfolio that is
  -- worth something: its value is no more than the buying power, and no larger a part of the portfolio
  -- than a position may be; with all positions it is within the exposure that is allowed; the holding
  -- of its symbol before it, and of a purchase the quantity of the order on top, is within the
  -- concentration that is allowed at the price of the order; every rule that is enabled and every
  -- custom check agrees. Of a sale the concentration after it is not bounded.
  pub check_order_lem :
      (f : Percentages D) (m : RiskManager S D) (o : Order S D) (price : D)
      → check_order f m o price ≡ none
      → eqb price d.zero ≡ false
      → eqb o.quantity d.zero ≡ false
      → eqb (total_value m.portfolio) d.zero ≡ false
      → let value = mul o.quantity price in
        let worth = total_value m.portfolio in
        (leb value (mul m.portfolio.cash f.one) ≡ true)
        × (leb (f.percent value worth) m.max_position_size_percent ≡ true)
        × (leb
              (f.percent (add (positions_value m.portfolio) value) worth)
              m.max_total_exposure_percent
            ≡ true)
        × (leb (f.percent (mul (holding_with m o) price) worth) m.max_concentration_percent ≡ true)
        × All (λ r. (r.enabled ≡ false) ⊎ (r.check m.portfolio o price ≡ true)) m.rules
        × All (λ c. c m.portfolio o price ≡ true) m.custom_checks
  unfolding check_position_size check_concentration_limit check_exposure_limit check_buying_power
      get_buying_power
  check_order_lem f m o price h p q w =
      let (a, b, c, x, y, r, s) = check_order_all f m o price h in
      (
        ground arith,
        ground arith,
        ground arith,
        ground arith,
        rules_pass-All m.rules m.portfolio o price r,
        checks_pass-All m.custom_checks m.portfolio o price s,
      )
