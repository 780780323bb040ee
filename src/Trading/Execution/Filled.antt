-- ===== src/Trading/Execution/Filled.antt =====
-- What one fill of all that remains does to the order manager (src/trading/execution_engine.py).
use algo_engine.Prelude.{
  ℕ, ◌≡◌, refl, sym, ap, subst, ◌∙◌, true, false, some, List, [], ◌∷◌, ◌++◌, String, arith, All,
  Option-cases, inl, inr,
}
use algo_engine.Prelude.Eq.{Eq, ◌=?◌, string_eq, elem, beq_refl}
use algo_engine.Prelude.Dict.{lookup, insert, contains, lookup-insert}
use algo_engine.Trading.Decimal.{Decimal, IsOrdered}
use algo_engine.Trading.Order.{Order, Fill, filled, is_active, update_fill}
use algo_engine.Trading.OrderManager.{OrderManager, discard, process_fill}
use algo_engine.Trading.PositionManager.{process_fill as book_position}
use algo_engine.Trading.Market.{CommissionModel, SlippageModel}
use algo_engine.Trading.Execution.{ExecutionEngine, on_fill, receive_fill}

discard-elem : (a : String) (xs : List String) → elem a (discard a xs) ≡ false
discard-elem a [] = refl
discard-elem a (x ∷ xs) = ground (arith, discard-elem a xs)

discard-elem_other :
    (a b : String) (xs : List String) → (a =? b) ≡ false → elem b (discard a xs) ≡ elem b xs
discard-elem_other a b [] h = refl
discard-elem_other a b (x ∷ xs) h = ground (
  arith,
  discard-elem_other a b xs,
  string_eq.beq_iff x a,
  string_eq.beq_iff x b,
  string_eq.beq_iff a b,
)

module _ {S D : Type 0} where
  -- The manager has an order under an id.
  abbrev pub Has : OrderManager S D → String → Order S D → Type 0
  Has m id o = lookup id m.orders ≡ some o

  -- The order of an id is FILLED, and the id is not in the set of active orders.
  pub record IsDone (m : OrderManager S D) (id : String) : Type 0 where
    pub final : Order S D
    pub stored : Has m id final
    pub is_filled : final.status ≡ filled
    pub is_out : elem id m.active_orders ≡ false

  -- An id has the same order in both, and is active in both or in none.
  abbrev pub IsSame : OrderManager S D → OrderManager S D → String → Type 0
  IsSame m m' id =
      (lookup id m'.orders ≡ lookup id m.orders)
      × (elem id m'.active_orders ≡ elem id m.active_orders)

  -- No order of the list has the id.
  abbrev pub Apart : String → List (Order S D) → Type 0
  Apart id os = All (λ (o : Order S D). (o.order_id =? id) ≡ false) os

  abbrev pub IsDistinct : List (Order S D) → Type 0
  IsDistinct [] = Unit
  IsDistinct (o ∷ os) = Apart o.order_id os × IsDistinct os

  pub IsDone-same :
      (m m' : OrderManager S D) (id : String) → IsSame m m' id → IsDone m id → IsDone m' id
  IsDone-same m m' id (o, a) h = record {
    final = h.final;
    stored = o ∙ h.stored;
    is_filled = h.is_filled;
    is_out = a ∙ h.is_out;
  }

module _ {S D : Type 0} ⦃d : Decimal D⦄ where
  open d use {zero, eqb, leb}

  update_whole :
      IsOrdered D
      → (now : ℕ) (p : D) (o : Order S D) → eqb o.filled_quantity zero ≡ true
      → (o' : Order S D) × (update_fill now o.remaining_quantity p o ≡ some o')
        × (o'.status ≡ filled)
        × (is_active o' ≡ false)
  unfolding update_fill is_active
  update_whole ordered now p o fresh =
      let none_left = ordered.sub_le_zero o.remaining_quantity o.remaining_quantity in
      let here = ordered.le_refl o.remaining_quantity in
      elim (Option-cases (update_fill now o.remaining_quantity p o)) [
        | inl failed ↦ absurd (let wrong : ⊥ = ground arith in wrong)
        | inr (o', booked) ↦
            let done : o'.status ≡ filled = ground (arith, none_left, here) in
            (o', booked, done, ground arith)
      ]

  -- A fill of all that remains of an order that has no fill yet.
  fill_whole :
      IsOrdered D
      → (now : ℕ) (id : String) (f : Fill S D) (o : Order S D) (m : OrderManager S D) → Has m id o
      → eqb o.filled_quantity zero ≡ true
      → f.quantity ≡ o.remaining_quantity
      → (m' : OrderManager S D) × (process_fill now id f m ≡ some m')
        × IsDone m' id
        × ((x : String) → (id =? x) ≡ false → IsSame m m' x)
  unfolding process_fill
  fill_whole ordered now id f o m there fresh whole =
      let (o', booked, status, off) = update_whole ordered now f.fill_price o fresh in
      elim (Option-cases (process_fill now id f m)) [
        | inl failed ↦ absurd (let wrong : ⊥ = ground arith in wrong)
        | inr (m', done) ↦
            let os : m'.orders ≡ insert id o' m.orders = ground arith in
            let live : m'.active_orders ≡ discard id m.active_orders = ground arith in
            (
              m',
              done,
              record {
                final = o';
                stored =
                    ap (lookup id) os
                    ∙ ground (arith, lookup-insert id id o' m.orders, beq_refl id);
                is_filled = status;
                is_out = ap (elem id) live ∙ discard-elem id m.active_orders;
              },
              λ x other. (
                ap (lookup x) os ∙ ground (arith, lookup-insert id x o' m.orders),
                ap (elem x) live ∙ discard-elem_other id x m.active_orders other,
              ),
            )
      ]

  -- The models of the engine are these.
  abbrev pub Uses : CommissionModel D → SlippageModel D → ExecutionEngine S D → Type 0
  Uses c s e = (e.commission_model ≡ c) × (e.slippage_model ≡ s)

module _ {S D : Type 0} ⦃eq : Eq S⦄ ⦃d : Decimal D⦄ where
  open d use {zero, eqb}

  on_fill-keeps :
      (f : Fill S D) (e : ExecutionEngine S D)
      → ((on_fill f e).order_manager ≡ e.order_manager)
        × ((on_fill f e).commission_model ≡ e.commission_model)
        × ((on_fill f e).slippage_model ≡ e.slippage_model)
  unfolding on_fill
  on_fill-keeps f e = elim (Option-cases (book_position f e.position_manager)) [
    | inl failed ↦ rw (failed, on_fill) (refl, refl, refl)
    | inr (r, booked) ↦ rw (booked, on_fill) (refl, refl, refl)
  ]

  pub receive_whole :
      IsOrdered D
      → (now : ℕ) (id : String) (f : Fill S D) (o : Order S D) (e : ExecutionEngine S D)
        (c : CommissionModel D) (s : SlippageModel D)
      → Uses c s e
      → Has e.order_manager id o
      → eqb o.filled_quantity zero ≡ true
      → f.quantity ≡ o.remaining_quantity
      → (e' : ExecutionEngine S D) × (receive_fill now id f e ≡ some e')
        × Uses c s e'
        × IsDone e'.order_manager id
        × ((x : String) → (id =? x) ≡ false → IsSame e.order_manager e'.order_manager x)
  unfolding receive_fill
  receive_whole ordered now id f o e c s (uc, us) there fresh whole =
      let (m, booked, done, others) =
        fill_whole ordered now id f o e.order_manager there fresh whole in
      let e' = record e { order_manager = m; delivered = e.delivered ++ (f ∷ []) } in
      let known : contains id e.order_manager.orders ≡ true = ground (arith, there) in
      let (same, same_c, same_s) = on_fill-keeps f e' in
      (
        on_fill f e',
        rw (booked, known, receive_fill) refl,
        (same_c ∙ uc, same_s ∙ us),
        subst (λ n. IsDone n id) (sym same) done,
        λ x other. subst (λ n. IsSame e.order_manager n x) (sym same) (others x other),
      )
