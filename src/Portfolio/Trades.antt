-- ===== src/Portfolio/Trades.antt =====
-- What a trade does to the cash of a portfolio (src/portfolio/portfolio.py).
use algo_engine.Prelude.{ℕ, ◌+◌, ◌*◌, ◌≡◌, ap, sym, ◌∙◌, Bool, true, false, arith, if◌then◌else◌}
use algo_engine.Prelude.Int.{ℤ, pos_part, neg_part, sub_ℕ, ◌-ℤ◌, int_laws, -ℤ_parts}
use algo_engine.Trading.Decimal.{Decimal, IsExactProduct, int_decimal, mul_ℤ}
use algo_engine.Trading.Order.{buy, sell}
use algo_engine.Trading.Position.{Trade, gain, net_pnl}
use algo_engine.Portfolio.{Portfolio, record_trade, update_cash}

sub_ℕ_parts : (a b : ℕ) → pos_part (sub_ℕ a b) + b ≡ neg_part (sub_ℕ a b) + a
sub_ℕ_parts a b = ground arith

-- A multiple of an equation between sums.
multiple :
    (k a b c x y z : ℕ) → a + b + c ≡ x + y + z → k * a + k * b + k * c ≡ k * x + k * y + k * z
multiple k a b c x y z h = grind (arith, ap (λ n. k * n) h)

mul_ℤ-sub : (q a b : ℤ) → mul_ℤ q (a -ℤ b) ≡ mul_ℤ q a -ℤ mul_ℤ q b
mul_ℤ-sub q a b =
    let c = a -ℤ b in
    let e = -ℤ_parts a b in
    let ep =
      multiple (pos_part q) (pos_part c) (neg_part a) (pos_part b) (neg_part c) (pos_part a)
        (neg_part b) e in
    let en =
      multiple (neg_part q) (pos_part c) (neg_part a) (pos_part b) (neg_part c) (pos_part a)
        (neg_part b) e in
    let mc = mul_parts q c in
    let ma = mul_parts q a in let mb = mul_parts q b in omega (int_laws, ep, en, mc, ma, mb)
  where
    mul_parts :
        (q x : ℤ)
        → pos_part (mul_ℤ q x) + (pos_part q * neg_part x + neg_part q * pos_part x)
          ≡ neg_part (mul_ℤ q x) + (pos_part q * pos_part x + neg_part q * neg_part x)
    mul_parts q x = sub_ℕ_parts _ _

pub ℤ-IsExactProduct : IsExactProduct ℤ
ℤ-IsExactProduct = record {
  add_assoc = λ a b c. omega int_laws;
  add_comm = λ a b. omega int_laws;
  sub_neg = λ a b. omega int_laws;
  neg_add = λ a b. omega int_laws;
  mul_sub = mul_ℤ-sub;
}

module _ {D : Type 0} ⦃d : Decimal D⦄ (exact : IsExactProduct D) where
  open d use {zero, add, sub}
  open exact use {add_assoc, add_comm, sub_neg, neg_add}

  -- What is left of a profit `r` on top of `c`, after both costs.
  after_costs : (c r k s : D) → sub (add c r) (add k s) ≡ add c (sub (sub r k) s)
  after_costs c r k s =
      sub_neg (add c r) (add k s)
      ∙ ap (λ x. add (add c r) x) (neg_add k s)
      ∙ add_assoc c r (add (sub zero k) (sub zero s))
      ∙ ap (λ x. add c x)
          (sym (add_assoc r (sub zero k) (sub zero s))
            ∙ ap (λ x. add x (sub zero s)) (sym (sub_neg r k))
            ∙ sym (sub_neg (sub r k) s))

  long_profit : (c x y : D) → add (add c (sub zero y)) x ≡ add c (sub x y)
  long_profit c x y =
      add_assoc c (sub zero y) x ∙ ap (λ z. add c z) (add_comm (sub zero y) x ∙ sym (sub_neg x y))

  short_profit : (c x y : D) → sub (add c y) x ≡ add c (sub y x)
  short_profit c x y =
      sub_neg (add c y) x ∙ add_assoc c y (sub zero x) ∙ ap (λ z. add c z) (sym (sub_neg y x))

module _ {S D : Type 0} ⦃d : Decimal D⦄ where
  open d use {zero, add, sub, mul}

  -- Where sums, and products with a difference, are exact: cash is paid for a quantity at the entry price
  -- of a long position, or received for a short one; then the trade that closes it is recorded. If its
  -- profit is the gain of its quantity between its two prices, the cash has changed by the net profit
  -- of the trade.
  pub round_trip :
      IsExactProduct D
      → (t : Trade S D) (p : Portfolio S D) (long : Bool) → t.side ≡ (if long then buy else sell)
      → t.realized_pnl ≡ gain long t.quantity t.entry_price t.exit_price
      → let paid = mul t.quantity t.entry_price in
        (record_trade t (update_cash (if long then sub zero paid else paid) p)).cash
        ≡ add p.cash (net_pnl t)
  unfolding record_trade update_cash gain net_pnl
  round_trip exact t p true s g =
      let profit = g ∙ exact.mul_sub t.quantity t.exit_price t.entry_price in
      rw s (
        ap (λ x. sub x (add t.commission t.slippage))
          (long_profit exact p.cash (mul t.quantity t.exit_price) (mul t.quantity t.entry_price)
            ∙ ap (λ x. add p.cash x) (sym profit))
        ∙ after_costs exact p.cash t.realized_pnl t.commission t.slippage)
  round_trip exact t p false s g =
      let profit = g ∙ exact.mul_sub t.quantity t.entry_price t.exit_price in
      rw s (
        ap (λ x. sub x (add t.commission t.slippage))
          (short_profit exact p.cash (mul t.quantity t.exit_price) (mul t.quantity t.entry_price)
            ∙ ap (λ x. add p.cash x) (sym profit))
        ∙ after_costs exact p.cash t.realized_pnl t.commission t.slippage)
