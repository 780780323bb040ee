-- ===== src/Trading/Execution/Filling.antt =====
-- What the loop over pending orders of src/trading/execution_engine.py does to the order manager.
use algo_engine.Prelude.{
  ℕ, ◌+◌, ◌≡◌, ◌⊎◌, refl, ap, ◌∙◌, true, false, none, some, List, [], ◌∷◌, String, arith, All,
  Option-cases, inl, inr,
}
use algo_engine.Prelude.Eq.{Eq, ◌=?◌, string_eq}
use algo_engine.Trading.Decimal.{Decimal, IsOrdered}
use algo_engine.Trading.Order.{Order, Fill}
use algo_engine.Trading.OrderManager.{OrderManager}
use algo_engine.Trading.Market.{Literals, Tick, CommissionModel, SlippageModel}
use algo_engine.Trading.Execution.{
  ExecutionEngine, price_at, apply_costs, try_fill_order, receive_fill, fill_each,
}
use algo_engine.Trading.Execution.Filled.{
  Has, IsDone, IsSame, IsDone-same, Apart, IsDistinct, Uses, receive_whole,
}

module _ {S D : Type 0} ⦃d : Decimal D⦄ ⦃l : Literals D⦄ where
  open d use {zero, eqb}

  try_fill_order-quantity :
      (c : CommissionModel D) (s : SlippageModel D) (id : String) (o : Order S D) (t : Tick S D)
      {f : Fill S D}
      → try_fill_order c s id o t ≡ some (some f)
      → f.quantity ≡ o.remaining_quantity
  unfolding try_fill_order apply_costs
  try_fill_order-quantity c s id o t {f} h =
      elim (Option-cases (price_at o.order_type o.side o.limit_price o.stop_price t)) [
        | inl failed ↦ absurd (let wrong : ⊥ = ground arith in wrong)
        | inr (none, waits) ↦ absurd (let wrong : ⊥ = ground arith in wrong)
        | inr (some p, fills) ↦ ground arith
      ]

  with_models :
      (c : CommissionModel D) (s : SlippageModel D) (id : String) (o : Order S D) (t : Tick S D)
      (e : ExecutionEngine S D)
      → Uses c s e
      → try_fill_order e.commission_model e.slippage_model id o t ≡ try_fill_order c s id o t
  with_models c s id o t e (uc, us) =
      ap (λ m. try_fill_order m e.slippage_model id o t) uc ∙ ap (λ m. try_fill_order c m id o t) us

  -- With any id for the fill, the order fills at the tick, or it does not and nothing raises.
  abbrev pub Fills : CommissionModel D → SlippageModel D → Tick S D → Order S D → Type 0
  Fills c s t o = (id : String) → (f : Fill S D) × (try_fill_order c s id o t ≡ some (some f))

  abbrev pub Waits : CommissionModel D → SlippageModel D → Tick S D → Order S D → Type 0
  Waits c s t o = (id : String) → try_fill_order c s id o t ≡ some none

  -- The order is stored, has no fill yet, and trying to fill it at the tick does not raise.
  pub record IsReady (c : CommissionModel D) (s : SlippageModel D) (t : Tick S D)
      (m : OrderManager S D) (o : Order S D) : Type 0 where
    pub stored : Has m o.order_id o
    pub fresh : eqb o.filled_quantity zero ≡ true
    pub decided : Fills c s t o ⊎ Waits c s t o

  -- What comes of an order: it is done if it fills, and else it is as it was.
  pub record Outcome (c : CommissionModel D) (s : SlippageModel D) (t : Tick S D)
      (m : OrderManager S D) (o : Order S D) : Type 0 where
    pub done : Fills c s t o → IsDone m o.order_id
    pub kept : Waits c s t o → Has m o.order_id o

module _ {S D : Type 0} (label : ℕ → String) ⦃eq : Eq S⦄ ⦃d : Decimal D⦄ ⦃l : Literals D⦄ where
  IsReady-same :
      (c : CommissionModel D) (s : SlippageModel D) (t : Tick S D) (m m' : OrderManager S D)
      (id : String) (os : List (Order S D))
      → ((x : String) → (id =? x) ≡ false → IsSame m m' x)
      → Apart id os
      → All (IsReady c s t m) os
      → All (IsReady c s t m') os
  IsReady-same c s t m m' id [] same apart ready = tt
  IsReady-same c s t m m' id (o ∷ os) same (a, apart) (r, ready) = (
    record {
      stored =
          (same o.order_id
            (ground (arith, string_eq.beq_iff o.order_id id, string_eq.beq_iff id o.order_id))).0
          ∙ r.stored;
      fresh = r.fresh;
      decided = r.decided;
    },
    IsReady-same c s t m m' id os same apart ready,
  )

  -- The engine after the loop: the outcome of each order of the list, and all other ids as before.
  pub record Result (c : CommissionModel D) (s : SlippageModel D) (t : Tick S D)
      (os : List (Order S D)) (e e' : ExecutionEngine S D) : Type 0 where
    pub outcomes : All (Outcome c s t e'.order_manager) os
    pub others : (x : String) → Apart x os → IsSame e.order_manager e'.order_manager x

  Fills-Waits :
      (c : CommissionModel D) (s : SlippageModel D) (t : Tick S D) (o : Order S D)
      → Fills c s t o
      → Waits c s t o
      → ⊥
  Fills-Waits c s t o fills waits =
      let (f, tried) = fills "" in let wrong = waits "" in ground arith

  waiting_lem :
      (c : CommissionModel D) (s : SlippageModel D) (now : ℕ) (t : Tick S D) (o : Order S D)
      (os : List (Order S D)) (e : ExecutionEngine S D)
      → Uses c s e
      → Waits c s t o
      → fill_each label now t (o ∷ os) e ≡ fill_each label now t os e
  unfolding fill_each
  waiting_lem c s now t o os e uses waits =
      let tried = with_models c s (label e.fills_made) o t e uses ∙ waits (label e.fills_made) in
      ground arith

  filling_lem :
      (c : CommissionModel D) (s : SlippageModel D) (now : ℕ) (t : Tick S D) (o : Order S D)
      (os : List (Order S D)) (e : ExecutionEngine S D) (f : Fill S D) {e' : ExecutionEngine S D}
      → Uses c s e
      → try_fill_order c s (label e.fills_made) o t ≡ some (some f)
      → receive_fill now o.order_id f (record e { fills_made = e.fills_made + 1 }) ≡ some e'
      → fill_each label now t (o ∷ os) e ≡ fill_each label now t os e'
  unfolding fill_each
  filling_lem c s now t o os e f uses h got =
      let tried = with_models c s (label e.fills_made) o t e uses ∙ h in ground arith

  pub fill_each_lem :
      IsOrdered D
      → (c : CommissionModel D) (s : SlippageModel D) (now : ℕ) (t : Tick S D)
        (os : List (Order S D)) (e : ExecutionEngine S D)
      → Uses c s e
      → IsDistinct os
      → All (IsReady c s t e.order_manager) os
      → (e' : ExecutionEngine S D) × (fill_each label now t os e ≡ some e') × Result c s t os e e'
  unfolding fill_each
  fill_each_lem ordered c s now t [] e uses distinct ready =
      (e, refl, record { outcomes = tt; others = λ x apart. (refl, refl) })
  fill_each_lem ordered c s now t (o ∷ os) e uses (apart, distinct) (r, ready) = elim r.decided [
    | inr waits ↦
        let (e', run, res) = fill_each_lem ordered c s now t os e uses distinct ready in
        (
          e',
          waiting_lem c s now t o os e uses waits ∙ run,
          record {
            outcomes = (
              record {
                done = λ fills. absurd (Fills-Waits c s t o fills waits);
                kept = λ w. (res.others o.order_id apart).0 ∙ r.stored;
              },
              res.outcomes,
            );
            others = λ x (_, rest). res.others x rest;
          },
        )
    | inl fills ↦
        let (f, tried) = fills (label e.fills_made) in
        let (e1, got, uses1, done, same) =
          receive_whole ordered now o.order_id f o (record e { fills_made = e.fills_made + 1 }) c s
            uses r.stored r.fresh (try_fill_order-quantity c s (label e.fills_made) o t tried) in
        let (e', run, res) =
          fill_each_lem ordered c s now t os e1 uses1 distinct
            (IsReady-same c s t e.order_manager e1.order_manager o.order_id os same apart ready) in
        (
          e',
          filling_lem c s now t o os e f uses tried got ∙ run,
          record {
            outcomes = (
              record {
                done = λ _.
                    IsDone-same e1.order_manager e'.order_manager o.order_id
                      (res.others o.order_id apart) done;
                kept = λ waits. absurd (Fills-Waits c s t o fills waits);
              },
              res.outcomes,
            );
            others = λ x (other, rest).
                let (a, b) = res.others x rest in let (a1, b1) = same x other in (a ∙ a1, b ∙ b1);
          },
        )
  ]
