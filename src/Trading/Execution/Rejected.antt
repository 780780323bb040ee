-- ===== src/Trading/Execution/Rejected.antt =====
-- What is left of an order that a broker does not take (`submit_order` of
-- src/trading/execution_engine.py).
use algo_engine.Prelude.{
  ℕ, ◌≡◌, ◌≢◌, refl, Bool, true, false, Option, none, some, List, [], ◌∷◌, ◌++◌, String, arith,
  Bool-cases, inl, inr,
}
use algo_engine.Prelude.Eq.{Eq, string_eq, elem, beq_refl}
use algo_engine.Prelude.Dict.{lookup, lookup-insert_self}
use algo_engine.Trading.Order.{Order, rejected, is_active}
use algo_engine.Trading.OrderManager.{set_add, register_order, cancel_order}
use algo_engine.Trading.Execution.{ExecutionEngine, connected, set_status, submit, cancel}

elem-append : (a : String) (xs : List String) → elem a (xs ++ (a ∷ [])) ≡ true
elem-append a [] = ground (arith, beq_refl a)
elem-append a (x ∷ xs) = ground (arith, elem-append a xs)

elem-set_add : (a : String) (xs : List String) → elem a (set_add a xs) ≡ true
elem-set_add a xs = elim (Bool-cases (elem a xs)) [
  | inl here ↦ rw here here
  | inr new ↦ rw new (elem-append a xs)
]

module _ {S D : Type 0} where
  cancel_refused :
      (now : ℕ) (id : String) (o : Order S D) (e : ExecutionEngine S D)
      → lookup id e.order_manager.orders ≡ some o
      → is_active o ≡ false
      → cancel now id e ≡ (false, e)
  unfolding cancel cancel_order
  cancel_refused now id o e there off = rw (there, off, cancel, cancel_order) refl

module _ {S D : Type 0} ⦃eq : Eq S⦄ where
  -- The engine with an order that is registered and then rejected.
  abbrev after_refusal : Order S D → ExecutionEngine S D → ExecutionEngine S D
  after_refusal o e =
      set_status o rejected (record e { order_manager = register_order o e.order_manager })

  submit_rejects :
      (answer : Option Bool) (o : Order S D) (e : ExecutionEngine S D)
      → e.broker ≡ connected
      → answer ≢ some true
      → submit answer o e ≡ (false, after_refusal o e)
  unfolding submit
  submit_rejects none o e h refused = rw (h, submit) refl
  submit_rejects (some false) o e h refused = rw (h, submit) refl
  submit_rejects (some true) o e h refused = absurd (refused refl)

  after_refusal_lem :
      (now : ℕ) (o : Order S D) (e : ExecutionEngine S D)
      → let e' = after_refusal o e in
        (lookup o.order_id e'.order_manager.orders ≡ some (record o { status = rejected }))
        × (elem o.order_id e'.order_manager.active_orders ≡ true)
        × (cancel now o.order_id e' ≡ (false, e'))
  unfolding register_order is_active
  after_refusal_lem now o e =
      let e' = after_refusal o e in
      let o' = record o { status = rejected } in
      let stored : lookup o.order_id e'.order_manager.orders ≡ some o' =
        lookup-insert_self o.order_id o' _ in
      (
        stored,
        elem-set_add o.order_id e.order_manager.active_orders,
        cancel_refused now o.order_id o' e' stored refl,
      )

  -- An order that a connected broker refuses, or whose submission raises, is stored as REJECTED and the
  -- caller is told so; its id stays in the set of active orders, and cancelling it by its id is
  -- refused and changes nothing.
  pub submit_refused :
      (answer : Option Bool) (now : ℕ) (o : Order S D) (e : ExecutionEngine S D)
      → e.broker ≡ connected
      → answer ≢ some true
      → let (taken, e') = submit answer o e in
        (taken ≡ false)
        × (lookup o.order_id e'.order_manager.orders ≡ some (record o { status = rejected }))
        × (elem o.order_id e'.order_manager.active_orders ≡ true)
        × (cancel now o.order_id e' ≡ (false, e'))
  submit_refused answer now o e h refused =
      let (stored, kept, refused_again) = after_refusal_lem now o e in
      rw (submit_rejects answer o e h refused) (refl, stored, kept, refused_again)
