-- ===== src/Trading/Market.antt =====
-- Ticks (`Tick` of src/data/models.py) and the costs of a fill (`CommissionModel` and
-- `SlippageModel` of src/trading/models.py).
use algo_engine.Prelude.{ℕ, Option, none, some, if◌then◌else◌}
use algo_engine.Prelude.Int.{ℤ, pos}
use algo_engine.Trading.Decimal.{Decimal, int_decimal}

-- The decimals that the code writes as literals.
pub record Literals {ℓ} (D : Type ℓ) : Type ℓ where
  pub one : D
  pub two : D
  pub hundred : D

instance abbrev pub int_literals : Literals ℤ
int_literals = record { one = pos 1; two = pos 2; hundred = pos 100 }

pub record Tick (S D : Type 0) : Type 0 where
  pub symbol : S
  pub timestamp : ℕ
  pub bid_price : D
  pub ask_price : D
  pub bid_size : D
  pub ask_size : D
  pub last_price : Option D

pub record CommissionModel (D : Type 0) : Type 0 where
  pub per_share : D
  pub min_per_order : D
  pub max_percent : D
  pub flat_fee : D

pub record SlippageModel (D : Type 0) : Type 0 where
  pub fixed_slippage : D
  pub percentage : D
  pub volume_impact : D

module _ {D : Type 0} ⦃d : Decimal D⦄ where
  open d use {leb}

  -- `min(a, b)` and `max(a, b)`, the first where they are equal.
  abbrev pub smaller : D → D → D
  smaller a b = if leb a b then a else b

  abbrev pub larger : D → D → D
  larger a b = if leb b a then a else b

module _ {D : Type 0} ⦃d : Decimal D⦄ ⦃l : Literals D⦄ where
  open d use {zero, add, sub, mul, div, leb}

  -- `mid_price` of a bid and an ask price
  unfoldable pub mid_price : {S : Type 0} → Tick S D → Option D
  mid_price t = div (add t.bid_price t.ask_price) l.two

  -- `CommissionModel.calculate`
  unfoldable pub commission_for : CommissionModel D → D → D → Option D
  commission_for m quantity price =
      let fee = larger (add (mul quantity m.per_share) m.flat_fee) m.min_per_order in
      elim (div (mul (mul quantity price) m.max_percent) l.hundred) [
        | none ↦ none
        | some most ↦ some (smaller fee most)
      ]

  -- `SlippageModel.calculate`
  unfoldable pub slippage_for : SlippageModel D → D → D → D → Option D
  slippage_for m price quantity volume = elim (div (mul price m.percentage) l.hundred) [
    | none ↦ none
    | some share ↦
        let base = add m.fixed_slippage share in
        if leb volume zero then some base else elim (div quantity volume) [
          | none ↦ none
          | some part ↦ some (add base (mul part m.volume_impact))
        ]
  ]
