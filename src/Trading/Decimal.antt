-- ===== src/Trading/Decimal.antt =====
-- All that src/trading uses of Python's `decimal.Decimal`, as an instance argument: the operations
-- round to the context's precision, so no law is built in. A lemma that needs exact sums or an order
-- takes `IsExact` or `IsOrdered`; whole numbers meet both.
use algo_engine.Prelude.{
  ◌+◌, ◌*◌, ◌/◌, ◌≡◌, refl, Bool, true, false, Option, none, some, arith, if◌then◌else◌,
}
use algo_engine.Prelude.Int.{
  ℤ, pos, pos_part, neg_part, ◌+ℤ◌, ◌-ℤ◌, leb_ℤ, eqb_ℤ, sub_ℕ, int_laws, eq_of_parts,
}

pub record Decimal {ℓ} (D : Type ℓ) : Type ℓ where
  pub zero : D
  pub add : D → D → D
  pub sub : D → D → D
  pub mul : D → D → D
  -- `none` is the exception on a divisor of zero
  pub div : D → D → Option D
  pub leb : D → D → Bool
  pub eqb : D → D → Bool

-- Sums and differences are exact, as they are while all digits fit the precision.
pub record IsExact {ℓ} (D : Type ℓ) ⦃d : Decimal D⦄ : Type ℓ where
  pub add_sub : (a x r : D) → d.add (d.add a x) (d.sub r x) ≡ d.add a r
  pub sub_self : (a : D) → d.sub a a ≡ d.zero

-- Away from NaN, `<=` is a total order.
pub record IsOrdered {ℓ} (D : Type ℓ) ⦃d : Decimal D⦄ : Type ℓ where
  pub le_refl : (a : D) → d.leb a a ≡ true
  pub le_antisymm : (a b : D) → d.leb a b ≡ true → d.leb b a ≡ true → a ≡ b
  -- a difference is positive exactly if the larger was taken first
  pub sub_le_zero : (a b : D) → d.leb (d.sub a b) d.zero ≡ d.leb a b

-- Away from NaN, any two numbers compare, and `<=` carries over.
pub record IsChain {ℓ} (D : Type ℓ) ⦃d : Decimal D⦄ : Type ℓ where
  pub le_total : (a b : D) → d.leb a b ≡ false → d.leb b a ≡ true
  pub le_trans : (a b c : D) → d.leb a b ≡ true → d.leb b c ≡ true → d.leb a c ≡ true

-- Sums are exact, and the order goes along with them.
pub record IsOrderedSum {ℓ} (D : Type ℓ) ⦃d : Decimal D⦄ : Type ℓ where
  pub add_zero : (a : D) → d.add a d.zero ≡ a
  pub add_sub : (q r : D) → d.add q (d.sub r q) ≡ r
  pub sub_le : (q r s : D) → d.leb (d.sub r q) s ≡ d.leb r (d.add q s)
  pub add_mono :
      (a b c e : D) → d.leb a b ≡ true → d.leb c e ≡ true → d.leb (d.add a c) (d.add b e) ≡ true

-- Sums, differences and the products with a difference are exact.
pub record IsExactProduct {ℓ} (D : Type ℓ) ⦃d : Decimal D⦄ : Type ℓ where
  pub add_assoc : (a b c : D) → d.add (d.add a b) c ≡ d.add a (d.add b c)
  pub add_comm : (a b : D) → d.add a b ≡ d.add b a
  pub sub_neg : (a b : D) → d.sub a b ≡ d.add a (d.sub d.zero b)
  pub neg_add : (a b : D) → d.sub d.zero (d.add a b) ≡ d.add (d.sub d.zero a) (d.sub d.zero b)
  pub mul_sub : (q a b : D) → d.mul q (d.sub a b) ≡ d.sub (d.mul q a) (d.mul q b)

-- A sum of positive numbers is positive, and adding to zero keeps the sign.
pub record IsPositiveSum {ℓ} (D : Type ℓ) ⦃d : Decimal D⦄ : Type ℓ where
  pub zero_le : d.leb d.zero d.zero ≡ true
  pub zero_add : (a : D) → d.leb (d.add d.zero a) d.zero ≡ d.leb a d.zero
  pub add_positive :
      (a b : D) → d.leb a d.zero ≡ false → d.leb b d.zero ≡ false → d.leb (d.add a b) d.zero ≡ false

abbrev pub mul_ℤ : ℤ → ℤ → ℤ
mul_ℤ a b =
    sub_ℕ (pos_part a * pos_part b + neg_part a * neg_part b)
      (pos_part a * neg_part b + neg_part a * pos_part b)

-- Division rounded towards zero.
abbrev div_ℤ : ℤ → ℤ → Option ℤ
div_ℤ a b =
    if eqb_ℤ b (pos 0)
    then none
    else let size = (pos_part a + neg_part a) / (pos_part b + neg_part b) in
      some (if leb_ℤ (pos 0) (mul_ℤ a b) then pos size else sub_ℕ 0 size)

-- Whole numbers.
instance abbrev pub int_decimal : Decimal ℤ
int_decimal = record {
  zero = pos 0;
  add = ◌+ℤ◌;
  sub = ◌-ℤ◌;
  mul = mul_ℤ;
  div = div_ℤ;
  leb = leb_ℤ;
  eqb = eqb_ℤ;
}

pub ℤ-IsExact : IsExact ℤ
ℤ-IsExact = record { add_sub = λ a x r. omega int_laws; sub_self = λ a. omega int_laws }

sub_le_zero_ℤ : (a b : ℤ) → leb_ℤ (a -ℤ b) (pos 0) ≡ leb_ℤ a b
unfolding ◌-ℤ◌
sub_le_zero_ℤ a b = ground arith

pub ℤ-IsOrdered : IsOrdered ℤ
ℤ-IsOrdered = record {
  le_refl = λ a. ground arith;
  le_antisymm = λ a b h k. eq_of_parts a b (ground arith);
  sub_le_zero = sub_le_zero_ℤ;
}

zero_add_ℤ : (a : ℤ) → leb_ℤ (pos 0 +ℤ a) (pos 0) ≡ leb_ℤ a (pos 0)
unfolding ◌+ℤ◌
zero_add_ℤ a = ground arith

add_positive_ℤ :
    (a b : ℤ) → leb_ℤ a (pos 0) ≡ false → leb_ℤ b (pos 0) ≡ false → leb_ℤ (a +ℤ b) (pos 0) ≡ false
unfolding ◌+ℤ◌
add_positive_ℤ a b h k = ground arith

pub ℤ-IsPositiveSum : IsPositiveSum ℤ
ℤ-IsPositiveSum = record { zero_le = refl; zero_add = zero_add_ℤ; add_positive = add_positive_ℤ }

pub ℤ-IsChain : IsChain ℤ
ℤ-IsChain = record { le_total = λ a b h. ground arith; le_trans = λ a b c h k. ground arith }

-- Decimals with two places, as their hundredths; products and quotients are rounded towards zero.
abbrev pub hundredths : Decimal ℤ
hundredths = record {
  zero = pos 0;
  add = ◌+ℤ◌;
  sub = ◌-ℤ◌;
  mul = λ a b. elim (div_ℤ (mul_ℤ a b) (pos 100)) as (λ _. ℤ) [ none ↦ pos 0 | some x ↦ x ];
  div = λ a b. div_ℤ (mul_ℤ a (pos 100)) b;
  leb = leb_ℤ;
  eqb = eqb_ℤ;
}

sub_le_ℤ : (q r s : ℤ) → leb_ℤ (r -ℤ q) s ≡ leb_ℤ r (q +ℤ s)
unfolding ◌-ℤ◌ ◌+ℤ◌
sub_le_ℤ q r s = ground arith

add_mono_ℤ : (a b c e : ℤ) → leb_ℤ a b ≡ true → leb_ℤ c e ≡ true → leb_ℤ (a +ℤ c) (b +ℤ e) ≡ true
unfolding ◌+ℤ◌
add_mono_ℤ a b c e h k = ground arith

pub hundredths-IsOrderedSum : IsOrderedSum ℤ ⦃d = hundredths⦄
hundredths-IsOrderedSum = record {
  add_zero = λ a. omega int_laws;
  add_sub = λ q r. omega int_laws;
  sub_le = sub_le_ℤ;
  add_mono = add_mono_ℤ;
}

pub hundredths-IsChain : IsChain ℤ ⦃d = hundredths⦄
hundredths-IsChain = record {
  le_total = λ a b h. ground arith;
  le_trans = λ a b c h k. ground arith;
}

pub hundredths-IsOrdered : IsOrdered ℤ ⦃d = hundredths⦄
hundredths-IsOrdered = record {
  le_refl = λ a. ground arith;
  le_antisymm = λ a b h k. eq_of_parts a b (ground arith);
  sub_le_zero = sub_le_zero_ℤ;
}
