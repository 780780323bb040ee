-- ===== src/Trading/OrderRouter/Totals.antt =====
-- What the parts of a split by weights add up to (src/trading/order_router.py).
use algo_engine.Prelude.{
  ℕ, zero, suc, ◌+◌, ◌-◌, ◌≤◌, ◌≡◌, ◌⊎◌, refl, sym, ap, subst, ◌∙◌, true, false, some, List, [],
  ◌∷◌, String, arith, length, Bool-cases, inl, inr,
}
use algo_engine.Trading.Decimal.{Decimal, IsChain, IsOrdered, IsOrderedSum}
use algo_engine.Trading.OrderRouter.{Order, Division}
use algo_engine.Trading.OrderRouter.Split.{larger, init, weighted_parts, split_order}

module _ {D : Type 0} ⦃d : Decimal D⦄ where
  abbrev pub total : {A : Type 0} → List (Order A D) → D
  total [] = d.zero
  total (o ∷ os) = d.add o.quantity (total os)

  -- The quantities of all parts but the last: each share of the order, raised to one unit at least.
  abbrev pub raised : D → D → List D → D
  raised one quantity [] = d.zero
  raised one quantity (w ∷ ws) = d.add (larger (d.mul quantity w) one) (raised one quantity ws)

  -- So many units.
  abbrev pub units : D → ℕ → D
  units one zero = d.zero
  units one (suc n) = d.add one (units one n)

length-init : {A : Type 0} (ws : List A) → suc (length (init ws)) ≡ length ws ⊎ (ws ≡ [])
length-init [] = inr refl
length-init (w ∷ []) = inl refl
length-init (w ∷ u ∷ ws) = ground (arith, length-init (u ∷ ws))

module _ {D : Type 0} ⦃d : Decimal D⦄ (chain : IsChain D) (order : IsOrdered D)
    (sum : IsOrderedSum D) where
  open d use {add, sub, leb}

  larger-shift : (q s rem : D) → add q (larger s (sub rem q)) ≡ larger (add q s) rem
  larger-shift q s rem = elim (Bool-cases (leb rem (add q s))) [
    | inl h ↦ rw (sum.sub_le q rem s, h) refl
    | inr h ↦ rw (sum.sub_le q rem s, h) (sum.add_sub q rem)
  ]

  last_lem : (rem : D) → add (larger rem d.zero) d.zero ≡ larger d.zero rem
  last_lem rem = sum.add_zero (larger rem d.zero) ∙ (elim (Bool-cases (leb d.zero rem)) [
    | inr h ↦ rw (h, chain.le_total d.zero rem h) refl
    | inl h ↦ elim (Bool-cases (leb rem d.zero)) [
      | inl k ↦ rw (h, k) (order.le_antisymm rem d.zero k h)
      | inr k ↦ rw (h, k) refl
    ]
  ])

  le_larger : (a b : D) → leb a (larger a b) ≡ true
  le_larger a b = elim (Bool-cases (leb b a)) [
    | inl h ↦ rw h (order.le_refl a)
    | inr h ↦ rw h (chain.le_total b a h)
  ]

  le_larger_right : (a b : D) → leb b (larger a b) ≡ true
  le_larger_right a b = elim (Bool-cases (leb b a)) [
    | inl h ↦ rw h h
    | inr h ↦ rw h (order.le_refl b)
  ]

  units-raised :
      (one quantity : D) (ws : List D) → leb (units one (length ws)) (raised one quantity ws) ≡ true
  units-raised one quantity [] = order.le_refl d.zero
  units-raised one quantity (w ∷ ws) =
      sum.add_mono one (larger (d.mul quantity w) one) (units one (length ws))
        (raised one quantity ws) (le_larger_right (d.mul quantity w) one)
        (units-raised one quantity ws)

  module _ {A : Type 0} where
    weighted_parts-total :
        (v : Division D) (ids : ℕ → String) (i n : ℕ) (o : Order A D) (ws : List D) (rem : D)
        → total (weighted_parts v ids i n o ws rem) ≡ larger (raised v.one o.quantity ws) rem
    unfolding weighted_parts
    weighted_parts-total v ids i n o [] rem = last_lem rem
    weighted_parts-total v ids i n o (w ∷ ws) rem =
        let q = larger (d.mul o.quantity w) v.one in
        ap (λ t. add q t) (weighted_parts-total v ids (i + 1) n o ws (sub rem q))
        ∙ larger-shift q (raised v.one o.quantity ws) rem

module _ {A D : Type 0} ⦃d : Decimal D⦄ where
  length-weighted_parts :
      (v : Division D) (ids : ℕ → String) (i n : ℕ) (o : Order A D) (ws : List D) (rem : D)
      → length (weighted_parts v ids i n o ws rem) ≡ suc (length ws)
  unfolding weighted_parts
  length-weighted_parts v ids i n o [] rem = refl
  length-weighted_parts v ids i n o (w ∷ ws) rem =
      ap suc (length-weighted_parts v ids (i + 1) n o ws _)

  -- Where quantities compare and add up exactly, whatever the shares: a split by weights for `n`
  -- brokers, at least two, with as many counts and shares, makes `n` parts. They add up to the order's
  -- quantity or, where the shares of all but the last, each raised to one unit at least, are more than
  -- that, to the sum of these; so to `n - 1` units at least, however small the order is.
  pub split_order_lem :
      IsChain D
      → IsOrdered D
      → IsOrderedSum D
      → (v : Division D) (ids : ℕ → String) (o : Order A D) (n : ℕ) (counts : List ℕ) → 2 ≤ n
      → length counts ≡ n
      → length (v.shares counts) ≡ n
      → (parts : List (Order A D)) × (split_order v ids o n false (some counts) ≡ some parts)
        × (length parts ≡ n)
        × (total parts ≡ larger (raised v.one o.quantity (init (v.shares counts))) o.quantity)
        × (d.leb (units v.one (n - 1)) (total parts) ≡ true)
  unfolding split_order
  split_order_lem chain order sum v ids o n counts m c s =
      let ws = init (v.shares counts) in
      let parts = weighted_parts v ids 0 n o ws o.quantity in
      let all = raised v.one o.quantity ws in
      let size : suc (length ws) ≡ n = ground (arith, length-init (v.shares counts)) in
      let fewer : length ws ≡ n - 1 = omega arith in
      let adds_up = weighted_parts-total chain order sum v ids 0 n o ws o.quantity in
      let enough =
        chain.le_trans (units v.one (length ws)) all (larger all o.quantity)
          (units-raised chain order sum v.one o.quantity ws)
          (le_larger chain order sum all o.quantity) in
      (
        parts,
        ground arith,
        length-weighted_parts v ids 0 n o ws o.quantity ∙ size,
        adds_up,
        subst (λ k. d.leb (units v.one k) (total parts) ≡ true) fewer
            (subst (λ t. d.leb (units v.one (length ws)) t ≡ true) (sym adds_up) enough),
      )
