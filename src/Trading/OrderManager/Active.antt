-- ===== src/Trading/OrderManager/Active.antt =====
-- The set of active orders of `OrderManager` (src/trading/order_manager.py).
use algo_engine.Prelude.{
  ℕ, ◌≡◌, sym, subst, true, false, Option, none, some, List, [], ◌∷◌, String, arith, All-map,
  Option-cases, Bool-cases, inl, inr,
}
use algo_engine.Prelude.Eq.{Eq, ◌=?◌, string_eq, elem, beq_refl}
use algo_engine.Prelude.Dict.{Dict, lookup, insert, lookup-insert}
use algo_engine.Trading.Decimal.{Decimal}
use algo_engine.Trading.Order.{Order, Fill, is_active, is_cancelled, update_fill}
use algo_engine.Trading.OrderManager.{
  OrderManager, discard, new_manager, cancel_order, register_order, process_fill, get_active_orders,
  cancel_each, cancel_all_orders, known,
}
use algo_engine.Trading.OrderManager.Cancelled.{
  IsLive, IsConsistent, kept_by_insert, discard-consistent, IsConsistent-of,
  cancel_order-IsConsistent, register_order-IsConsistent,
}

module _ {S D : Type 0} ⦃d : Decimal D⦄ where
  update_fill-order_id :
      (now : ℕ) (q p : D) (o : Order S D) {o' : Order S D}
      → update_fill now q p o ≡ some o'
      → o'.order_id ≡ o.order_id
  unfolding update_fill
  update_fill-order_id now q p o h = ground arith

  update_keeps :
      (orders : Dict String (Order S D)) (id : String) (o o' : Order S D) (x : String)
      → lookup id orders ≡ some o
      → o'.order_id ≡ o.order_id
      → is_active o' ≡ true
      → IsLive orders x
      → IsLive (insert id o' orders) x
  update_keeps orders id o o' x known same a (o'', found, live, named) =
      elim (Bool-cases (x =? id)) [
        | inl e ↦
            let x≡id : x ≡ id = (string_eq.beq_iff x id).0 e in
            let is : o ≡ o'' = cc in
            subst (IsLive (insert id o' orders)) (sym x≡id)
              (o', ground (arith, lookup-insert id id o' orders, beq_refl id), a, cc)
        | inr e ↦ kept_by_insert orders id o' x ((o'', found, live, named), e)
      ]

  process_fill-IsConsistent :
      (now : ℕ) (id : String) (fill : Fill S D) (m : OrderManager S D) {m' : OrderManager S D}
      → IsConsistent m
      → process_fill now id fill m ≡ some m'
      → IsConsistent m'
  unfolding process_fill
  process_fill-IsConsistent now id fill m {m'} h e = elim (Option-cases (lookup id m.orders)) [
    | inl unknown ↦ let same : m ≡ m' = ground arith in subst IsConsistent same h
    | inr (o, there) ↦ elim (Option-cases (update_fill now fill.quantity fill.fill_price o)) [
      | inl failed ↦ absurd (let wrong : ⊥ = ground arith in wrong)
      | inr (o', booked) ↦
          let os = insert id o' m.orders in
          let same = update_fill-order_id now fill.quantity fill.fill_price o booked in
          elim (Bool-cases (is_active o')) [
            | inl a ↦ IsConsistent-of m' os m.active_orders (ground arith) (ground arith) (
                All-map
                  (λ x (l : IsLive m.orders x). update_keeps m.orders id o o' x there same a l)
                  m.active_orders h)
            | inr a ↦
                IsConsistent-of m' os (discard id m.active_orders) (ground arith) (ground arith)
                  (discard-consistent m.orders id o' m.active_orders h)
          ]
    ]
  ]

-- What a caller can do to the manager; an order that is registered is active.
pub data Operation (S D : Type 0) : Type 0 where
  register : (o : Order S D) → is_active o ≡ true → Operation S D
  fill_order : ℕ → String → Fill S D → Operation S D
  cancel_one : ℕ → String → Operation S D
  cancel_all : ℕ → Option S → Operation S D

module _ {S D : Type 0} ⦃e : Eq S⦄ ⦃d : Decimal D⦄ where
  -- An exception leaves the manager as it was.
  pub perform : Operation S D → OrderManager S D → OrderManager S D
  perform (register o a) m = register_order o m
  perform (fill_order now id f) m = elim (process_fill now id f m) [ none ↦ m | some m' ↦ m' ]
  perform (cancel_one now id) m = (cancel_order now id m).1
  perform (cancel_all now symbol) m = (cancel_all_orders now symbol m).1

  pub perform_all : List (Operation S D) → OrderManager S D → OrderManager S D
  perform_all [] m = m
  perform_all (o ∷ os) m = perform_all os (perform o m)

  cancel_each-IsConsistent :
      (now : ℕ) (os : List (Order S D)) (m : OrderManager S D)
      → IsConsistent m
      → IsConsistent (cancel_each now os m).1
  unfolding cancel_each
  cancel_each-IsConsistent now [] m h = h
  cancel_each-IsConsistent now (o ∷ os) m h =
      cancel_each-IsConsistent now os (cancel_order now o.order_id m).1
        (cancel_order-IsConsistent now o.order_id m h)

  perform-IsConsistent :
      (o : Operation S D) (m : OrderManager S D) → IsConsistent m → IsConsistent (perform o m)
  unfolding perform cancel_all_orders
  perform-IsConsistent (register o a) m h = register_order-IsConsistent o m a h
  perform-IsConsistent (fill_order now id f) m h = elim (Option-cases (process_fill now id f m)) [
    | inl failed ↦
        let same : m ≡ perform (fill_order now id f) m = ground arith in subst IsConsistent same h
    | inr (m', done) ↦
        let same : m' ≡ perform (fill_order now id f) m = ground arith in
        subst IsConsistent same (process_fill-IsConsistent now id f m h done)
  ]
  perform-IsConsistent (cancel_one now id) m h = cancel_order-IsConsistent now id m h
  perform-IsConsistent (cancel_all now symbol) m h =
      cancel_each-IsConsistent now (get_active_orders symbol m) m h

  perform_all-IsConsistent :
      (os : List (Operation S D)) (m : OrderManager S D)
      → IsConsistent m
      → IsConsistent (perform_all os m)
  unfolding perform_all
  perform_all-IsConsistent [] m h = h
  perform_all-IsConsistent (o ∷ os) m h =
      perform_all-IsConsistent os (perform o m) (perform-IsConsistent o m h)

  -- After any sequence of registrations of active orders, fills and cancellations, every id in the
  -- set of active orders is that of a known order, stored under its own id, that is active.
  pub reachable-IsConsistent :
      (os : List (Operation S D)) → IsConsistent (perform_all os (new_manager {S = S} {D = D}))
  unfolding new_manager
  reachable-IsConsistent os = perform_all-IsConsistent os new_manager tt

-- A fill for an order that was cancelled.
module _ {S D : Type 0} ⦃d : Decimal D⦄ where
  open d use {zero, sub, leb}

  -- A fill that reaches an order after its cancellation, and is smaller than what remained of it,
  -- makes the order active again if it is booked, while its id stays out of the set of active
  -- orders, and the order can be cancelled once more.
  pub fill_after_cancel :
      (now : ℕ) (id : String) (fill : Fill S D) (m : OrderManager S D) (o : Order S D)
      {m' : OrderManager S D}
      → lookup id m.orders ≡ some o
      → is_cancelled o ≡ true
      → elem id m.active_orders ≡ false
      → leb (sub o.remaining_quantity fill.quantity) zero ≡ false
      → process_fill now id fill m ≡ some m'
      → (o' : Order S D) × (lookup id m'.orders ≡ some o')
        × (is_active o' ≡ true)
        × (elem id m'.active_orders ≡ false)
        × ((cancel_order now id m').0 ≡ true)
  unfolding process_fill update_fill is_active is_cancelled cancel_order
  fill_after_cancel now id fill m o {m'} there off out more e =
      elim (Option-cases (update_fill now fill.quantity fill.fill_price o)) [
        | inl failed ↦ absurd (let wrong : ⊥ = ground arith in wrong)
        | inr (o', booked) ↦
            let found : lookup id m'.orders ≡ some o' =
              ground (arith, lookup-insert id id o' m.orders, beq_refl id) in
            let live : is_active o' ≡ true = ground arith in
            (o', found, live, ground arith, ground arith)
      ]
