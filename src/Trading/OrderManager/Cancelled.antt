-- ===== src/Trading/OrderManager/Cancelled.antt =====
-- Registrations and cancellations in src/trading/order_manager.py, and the set of active orders.
use algo_engine.Prelude.{
  ℕ, ◌≡◌, refl, sym, subst, Bool, true, false, some, List, [], ◌∷◌, ◌++◌, String, arith, All,
  All-append, All-map, Option-cases, Bool-cases, inl, inr, ◌⊎◌,
}
use algo_engine.Prelude.Eq.{Eq, ◌=?◌, string_eq, elem, beq_refl}
use algo_engine.Prelude.Dict.{Dict, lookup, insert, lookup-insert}
use algo_engine.Trading.Order.{Order, is_active, is_cancelled, cancel}
use algo_engine.Trading.OrderManager.{OrderManager, discard, cancel_order, register_order}

-- A fact of all members, with the test against the one taken out.
pub discard-All :
    (P : String → Type 0) (a : String) (xs : List String)
    → All P xs
    → All (λ x. P x × ((x =? a) ≡ false)) (discard a xs)
discard-All P a [] h = tt
discard-All P a (x ∷ xs) (p, ps) = elim (Bool-cases (x =? a)) [
  | inl e ↦ rw e (discard-All P a xs ps)
  | inr e ↦ rw e ((p, e), discard-All P a xs ps)
]

module _ {S D : Type 0} where
  -- The id is that of a known order, which is active and stored under its own id.
  abbrev pub IsLive : Dict String (Order S D) → String → Type 0
  IsLive orders id =
      (o : Order S D) × (lookup id orders ≡ some o) × (is_active o ≡ true) × (o.order_id ≡ id)

  -- Every id in the set of active orders is that of an active order.
  abbrev pub IsConsistent : OrderManager S D → Type 0
  IsConsistent m = All (IsLive m.orders) m.active_orders

  -- Writing the order of one id keeps the others live.
  pub kept_by_insert :
      (orders : Dict String (Order S D)) (id : String) (o : Order S D) (x : String)
      → IsLive orders x × ((x =? id) ≡ false)
      → IsLive (insert id o orders) x
  kept_by_insert orders id o x ((o', e, a, i), other) = (
    o',
    ground (arith, lookup-insert id x o orders, string_eq.beq_iff id x, string_eq.beq_iff x id),
    a,
    i,
  )

  pub discard-consistent :
      (orders : Dict String (Order S D)) (id : String) (o : Order S D) (ids : List String)
      → All (IsLive orders) ids
      → All (IsLive (insert id o orders)) (discard id ids)
  discard-consistent orders id o ids h =
      All-map (kept_by_insert orders id o) (discard id ids) (discard-All (IsLive orders) id ids h)

  -- Writing an active order under its id keeps all live.
  insert_active :
      (orders : Dict String (Order S D)) (id : String) (o : Order S D) (x : String)
      → is_active o ≡ true
      → o.order_id ≡ id
      → IsLive orders x
      → IsLive (insert id o orders) x
  insert_active orders id o x active named live = elim (Bool-cases (x =? id)) [
    | inl e ↦
        let same : x ≡ id = (string_eq.beq_iff x id).0 e in
        subst (IsLive (insert id o orders)) (sym same)
          (o, ground (arith, lookup-insert id id o orders, beq_refl id), active, named)
    | inr e ↦ kept_by_insert orders id o x (live, e)
  ]

  cancel_order_live :
      (now : ℕ) (id : String) (m : OrderManager S D) (o : Order S D)
      → lookup id m.orders ≡ some o
      → is_active o ≡ true
      → let (r, m') = cancel_order now id m in
        (r ≡ true)
        × (m'.orders ≡ insert id (cancel now o) m.orders)
        × (m'.active_orders ≡ discard id m.active_orders)
  unfolding cancel_order
  cancel_order_live now id m o e a = ground arith

  cancel_order_refused :
      (now : ℕ) (id : String) (m : OrderManager S D)
      → (cancel_order now id m).0 ≡ false
      → (cancel_order now id m).1 ≡ m
  unfolding cancel_order
  cancel_order_refused now id m h = ground arith

  pub IsConsistent-of :
      (m : OrderManager S D) (orders : Dict String (Order S D)) (ids : List String)
      → m.orders ≡ orders
      → m.active_orders ≡ ids
      → All (IsLive orders) ids
      → IsConsistent m
  IsConsistent-of m orders ids e1 e2 h =
      subst (λ i. All (IsLive m.orders) i) (sym e2) (subst (λ o. All (IsLive o) ids) (sym e1) h)

  cancel_order_cases :
      (now : ℕ) (id : String) (m : OrderManager S D)
      → (cancel_order now id m ≡ (false, m))
        ⊎ ((o : Order S D) × (lookup id m.orders ≡ some o) × (is_active o ≡ true))
  unfolding cancel_order
  cancel_order_cases now id m = elim (Option-cases (lookup id m.orders)) [
    | inl e ↦ inl (ground arith)
    | inr (o, e) ↦ elim (Bool-cases (is_active o)) [
      | inl a ↦ inr (o, e, a)
      | inr a ↦ inl (ground arith)
    ]
  ]

  pub cancel_order-IsConsistent :
      (now : ℕ) (id : String) (m : OrderManager S D)
      → IsConsistent m
      → IsConsistent (cancel_order now id m).1
  cancel_order-IsConsistent now id m h = elim (cancel_order_cases now id m) [
    | inl e ↦ subst (λ (r : Bool × OrderManager S D). IsConsistent r.1) (sym e) h
    | inr (o, e, a) ↦
        let (_, orders, ids) = cancel_order_live now id m o e a in
        IsConsistent-of (cancel_order now id m).1 _ _ orders ids
          (discard-consistent m.orders id (cancel now o) m.active_orders h)
  ]

  -- Cancelling an id that is live cancels its order and takes it out of the set.
  cancelled_lem :
      (now : ℕ) (o : Order S D)
      → is_active o ≡ true
      → (is_active (cancel now o) ≡ false) × (is_cancelled (cancel now o) ≡ true)
  unfolding cancel is_active is_cancelled
  cancelled_lem now o a = ground arith

  -- `cancel_order` succeeds exactly for a known order that is active.
  pub cancel_order_lem :
      (now : ℕ) (id : String) (m : OrderManager S D) (o : Order S D)
      → lookup id m.orders ≡ some o
      → let (r, m') = cancel_order now id m in
        (r ≡ is_active o)
        × (((o' : Order S D) × (lookup id m'.orders ≡ some o') × (is_active o' ≡ false)))
  unfolding cancel_order
  cancel_order_lem now id m o e = elim (Bool-cases (is_active o)) [
    | inl a ↦
        let (off, _) = cancelled_lem now o a in
        (
          ground arith,
          (
            cancel now o,
            ground (arith, lookup-insert id id (cancel now o) m.orders, beq_refl id),
            off,
          ),
        )
    | inr a ↦ (ground arith, (o, ground arith, a))
  ]

module _ {S D : Type 0} ⦃e : Eq S⦄ where
  pub register_order-IsConsistent :
      (o : Order S D) (m : OrderManager S D)
      → is_active o ≡ true
      → IsConsistent m
      → IsConsistent (register_order o m)
  unfolding register_order
  register_order-IsConsistent o m a h =
      let os = insert o.order_id o m.orders in
      let kept : All (IsLive os) m.active_orders =
        All-map (λ x (l : IsLive m.orders x). insert_active m.orders o.order_id o x a refl l)
          m.active_orders h in
      let new : IsLive os o.order_id = (
        o,
        ground (arith, lookup-insert o.order_id o.order_id o m.orders, beq_refl o.order_id),
        a,
        refl,
      ) in
      elim (Bool-cases (elem o.order_id m.active_orders)) [
        | inl old ↦ IsConsistent-of (register_order o m) os m.active_orders refl (ground arith) kept
        | inr fresh ↦
            IsConsistent-of (register_order o m) os (m.active_orders ++ (o.order_id ∷ [])) refl
              (ground arith) (All-append (IsLive os) m.active_orders _ kept (new, tt))
      ]
