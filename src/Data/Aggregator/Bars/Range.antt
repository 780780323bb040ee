-- ===== src/Data/Aggregator/Bars/Range.antt =====
-- The range of a bar that `_create_bar` of src/data/feed.py makes, and what `Bar.__post_init__` of
-- src/data/models.py changes of it.
use mathlib.Core.List.{Memᴰ}
use algo_engine.Prelude.{
  ℕ, ◌≡◌, ◌⊎◌, ◌∙◌, refl, ap, true, some, List, [], ◌∷◌, All, Bool-cases, inl, inr,
}
use algo_engine.Trading.Decimal.{Decimal, IsChain}
use algo_engine.Trading.Market.{Literals, Tick, smaller, larger}
use algo_engine.Data.Aggregator.{Resolution, Batch}
use algo_engine.Data.Aggregator.Bars.{
  Bar, bar_with, last_of, highest, lowest, post_init, prices_of, bar_of, create_bar,
}

-- What all elements of a list are, its last is.
last_of-All {ℓ κ} :
    {A : Type ℓ} (P : A → Type κ) (x : A) (xs : List A) → P x → All P xs → P (last_of x xs)
last_of-All P x [] p _ = p
last_of-All P x (y ∷ ys) p (q, qs) = last_of-All P y ys q qs

module _ {D : Type 0} ⦃d : Decimal D⦄ where
  open d use {leb}

  larger-cases : (a b : D) → (larger a b ≡ a) ⊎ (larger a b ≡ b)
  larger-cases a b = elim (Bool-cases (leb b a)) [
    | inl h ↦ rw h (inl refl)
    | inr h ↦ rw h (inr refl)
  ]

  smaller-cases : (a b : D) → (smaller a b ≡ a) ⊎ (smaller a b ≡ b)
  smaller-cases a b = elim (Bool-cases (leb a b)) [
    | inl h ↦ rw h (inl refl)
    | inr h ↦ rw h (inr refl)
  ]

  larger_le : (a b c : D) → leb a c ≡ true → leb b c ≡ true → leb (larger a b) c ≡ true
  larger_le a b c h k = elim (larger-cases a b) [ inl e ↦ rw e h | inr e ↦ rw e k ]

  le_smaller : (a b c : D) → leb c a ≡ true → leb c b ≡ true → leb c (smaller a b) ≡ true
  le_smaller a b c h k = elim (smaller-cases a b) [ inl e ↦ rw e h | inr e ↦ rw e k ]

  -- The choice of one of two first elements keeps a member among both.
  among : {m x y c : D} {ys : List D} → (c ≡ x) ⊎ (c ≡ y) → Memᴰ m (c ∷ ys) → Memᴰ m (x ∷ y ∷ ys)
  among (inl h) (Memᴰ.head e) = Memᴰ.head (e ∙ h)
  among (inr h) (Memᴰ.head e) = Memᴰ.tail (Memᴰ.head (e ∙ h))
  among h (Memᴰ.tail k) = Memᴰ.tail (Memᴰ.tail k)

  highest-Mem : (x : D) (xs : List D) → Memᴰ (highest x xs) (x ∷ xs)
  highest-Mem x [] = Memᴰ.head refl
  highest-Mem x (y ∷ ys) = among (larger-cases x y) (highest-Mem (larger x y) ys)

  lowest-Mem : (x : D) (xs : List D) → Memᴰ (lowest x xs) (x ∷ xs)
  lowest-Mem x [] = Memᴰ.head refl
  lowest-Mem x (y ∷ ys) = among (smaller-cases x y) (lowest-Mem (smaller x y) ys)

module _ {D : Type 0} ⦃d : Decimal D⦄ (chain : IsChain D) where
  open d use {leb}

  le_self : (a : D) → leb a a ≡ true
  le_self a = elim (Bool-cases (leb a a)) [ inl h ↦ h | inr h ↦ chain.le_total a a h ]

  le_larger : (a b : D) → (leb a (larger a b) ≡ true) × (leb b (larger a b) ≡ true)
  le_larger a b = elim (Bool-cases (leb b a)) [
    | inl h ↦ rw h (le_self a, h)
    | inr h ↦ rw h (chain.le_total b a h, le_self b)
  ]

  smaller_le : (a b : D) → (leb (smaller a b) a ≡ true) × (leb (smaller a b) b ≡ true)
  smaller_le a b = elim (Bool-cases (leb a b)) [
    | inl h ↦ rw h (le_self a, h)
    | inr h ↦ rw h (chain.le_total a b h, le_self b)
  ]

  le_highest :
      (x : D) (xs : List D)
      → (leb x (highest x xs) ≡ true) × All (λ y. leb y (highest x xs) ≡ true) xs
  le_highest x [] = (le_self x, tt)
  le_highest x (y ∷ ys) =
      let (first, rest) = le_highest (larger x y) ys in
      let (left, right) = le_larger x y in
      let top = highest (larger x y) ys in
      (
        chain.le_trans x (larger x y) top left first,
        (chain.le_trans y (larger x y) top right first, rest),
      )

  lowest_le :
      (x : D) (xs : List D)
      → (leb (lowest x xs) x ≡ true) × All (λ y. leb (lowest x xs) y ≡ true) xs
  lowest_le x [] = (le_self x, tt)
  lowest_le x (y ∷ ys) =
      let (first, rest) = lowest_le (smaller x y) ys in
      let (left, right) = smaller_le x y in
      let bottom = lowest (smaller x y) ys in
      (
        chain.le_trans bottom (smaller x y) x first left,
        (chain.le_trans bottom (smaller x y) y first right, rest),
      )

-- How a bar stands to the prices `p` and `ps` that it is made from.
pub record IsRange {S D : Type 0} ⦃d : Decimal D⦄ (p : D) (ps : List D) (b : Bar S D) : Type 0 where
  pub opens : b.open_price ≡ p
  pub closes : b.close ≡ last_of p ps
  pub above : All (λ x. d.leb x b.high ≡ true) (p ∷ ps)
  pub below : All (λ x. d.leb b.low x ≡ true) (p ∷ ps)
  pub reaches_high : Memᴰ b.high (p ∷ ps)
  pub reaches_low : Memᴰ b.low (p ∷ ps)

module _ {S D : Type 0} ⦃d : Decimal D⦄ where
  open d use {leb}

  -- Nothing is left to do for a bar whose range has its first and its last price.
  post_init_done :
      (b : Bar S D)
      → leb (larger b.open_price b.close) b.high ≡ true
      → leb b.low (smaller b.open_price b.close) ≡ true
      → post_init b ≡ b
  unfolding post_init
  post_init_done b h k = rw (h, k) refl

module _ {S D : Type 0} ⦃d : Decimal D⦄ ⦃l : Literals D⦄ (chain : IsChain D) where
  open d use {leb}

  bar_with-IsRange :
      (r : Resolution) (s : S) (t : ℕ) (ticks : List (Tick S D)) (p : D) (ps : List D)
      → IsRange p ps (bar_with r s t ticks p ps)
  bar_with-IsRange r s t ticks p ps = record {
    opens = refl;
    closes = refl;
    above = le_highest chain p ps;
    below = lowest_le chain p ps;
    reaches_high = highest-Mem p ps;
    reaches_low = lowest-Mem p ps;
  }

  post_init-bar_with :
      (r : Resolution) (s : S) (t : ℕ) (ticks : List (Tick S D)) (p : D) (ps : List D)
      → post_init (bar_with r s t ticks p ps) ≡ bar_with r s t ticks p ps
  post_init-bar_with r s t ticks p ps =
      let b = bar_with r s t ticks p ps in
      let (first, later) = le_highest chain p ps in
      let (first', later') = lowest_le chain p ps in
      post_init_done b
        (larger_le p (last_of p ps) b.high first
          (last_of-All (λ x. leb x b.high ≡ true) p ps first later))
        (le_smaller p (last_of p ps) b.low first'
          (last_of-All (λ x. leb b.low x ≡ true) p ps first' later'))

  -- From ticks that have the mid prices `p`, `ps`, a bar is made: it opens at `p` and closes at the
  -- last of the prices, each of them lies between its low and its high, and its low and its high are
  -- among them. `Bar.__post_init__` has nothing to put right in it.
  pub create_bar_lem :
      (r : Resolution) (b : Batch S D) (p : D) (ps : List D)
      → prices_of b.ticks ≡ some (p ∷ ps)
      → (x : Bar S D) × (create_bar r b ≡ some x) × IsRange p ps x × (post_init x ≡ x)
  unfolding create_bar bar_of
  create_bar_lem r b p ps h =
      let x = bar_with r b.symbol b.period b.ticks p ps in
      let fits = post_init-bar_with r b.symbol b.period b.ticks p ps in
      (
        x,
        rw (h, create_bar) (ap some fits),
        bar_with-IsRange r b.symbol b.period b.ticks p ps,
        fits,
      )
