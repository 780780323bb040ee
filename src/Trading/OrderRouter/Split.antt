-- ===== src/Trading/OrderRouter/Split.antt =====
-- `_split_order` of src/trading/order_router.py. The ids of new orders are an argument.
use algo_engine.Prelude.{
  ℕ, zero, suc, ◌+◌, Bool, Option, none, some, List, [], ◌∷◌, String, if◌then◌else◌, leb, ◌==◌,
  length,
}
use algo_engine.Trading.Decimal.{Decimal, int_decimal}
use algo_engine.Trading.OrderRouter.{Order, Division}

module _ {A D : Type 0} where
  -- `_copy_order_with_quantity`, and the tags that a split sets.
  abbrev pub copy_part : String → ℕ → ℕ → Order A D → D → Order A D
  copy_part id i num_parts order quantity = record {
    details = order.details;
    quantity = quantity;
    order_id = id;
    split_part = some (i + 1, num_parts);
    parent_order_id = some order.order_id;
  }

  -- The equal parts from part `i` on, `n` of them.
  unfoldable pub equal_parts : (ℕ → String) → ℕ → ℕ → ℕ → Order A D → D → List (Order A D)
  equal_parts ids i zero num_parts order part_qty = []
  equal_parts ids i (suc n) num_parts order part_qty =
      copy_part (ids i) i num_parts order part_qty
      ∷ equal_parts ids (i + 1) n num_parts order part_qty

module _ {D : Type 0} where
  -- `max(a, b)`
  abbrev pub larger : ⦃d : Decimal D⦄ → D → D → D
  larger ⦃d⦄ a b = if d.leb b a then a else b

  -- All but the last.
  abbrev pub init : List D → List D
  init [] = []
  init (x ∷ []) = []
  init (x ∷ y ∷ ys) = x ∷ init (y ∷ ys)

module _ {A D : Type 0} ⦃d : Decimal D⦄ where
  -- The weighted parts from part `i` on, by the shares of all but the last of them.
  unfoldable pub weighted_parts :
      Division D → (ℕ → String) → ℕ → ℕ → Order A D → List D → D → List (Order A D)
  weighted_parts v ids i num_parts order [] remaining =
      copy_part (ids i) i num_parts order (larger remaining d.zero) ∷ []
  weighted_parts v ids i num_parts order (w ∷ ws) remaining =
      let qty = larger (d.mul order.quantity w) v.one in
      copy_part (ids i) i num_parts order qty
      ∷ weighted_parts v ids (i + 1) num_parts order ws (d.sub remaining qty)

  -- `_split_order`; `none` is the ValueError for weights that are missing or of another length. Weights
  -- are those of a list of counts, where there are any.
  unfoldable pub split_order :
      Division D → (ℕ → String) → Order A D → ℕ → Bool → Option (List ℕ) → Option (List (Order A D))
  unfolding equal_parts weighted_parts
  split_order v ids order num_parts equal counts =
      if leb num_parts 1
      then some (order ∷ [])
      else if equal
      then some (equal_parts ids 0 num_parts num_parts order (v.over order.quantity num_parts))
      else elim counts [
        | none ↦ none
        | some ns ↦
            if length ns == num_parts
            then some (weighted_parts v ids 0 num_parts order (init (v.shares ns)) order.quantity)
            else none
      ]
