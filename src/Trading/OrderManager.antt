-- ===== src/Trading/OrderManager.antt =====
-- `OrderManager` of src/trading/order_manager.py. The manager and the dict share the order objects, so
-- a change of an order is a change of the dict's entry. The set of active orders is a list without
-- repetitions. Callbacks are numbers; what they are called with is recorded by its id, the latest
-- first, and what they raise is swallowed.
pub mod Cancelled
pub mod Active
use algo_engine.Prelude.{
  ℕ, zero, suc, ◌+◌, ◌≡◌, refl, Bool, true, false, not, ◌&&◌, ◌||◌, Option, none, some, List, [],
  ◌∷◌, ◌++◌, String, arith, if◌then◌else◌, length,
}
use algo_engine.Prelude.Eq.{Eq, ◌=?◌, string_eq, elem}
use algo_engine.Prelude.Dict.{Dict, lookup, get_or, insert}
use algo_engine.Trading.Decimal.{Decimal}
use algo_engine.Trading.Order.{Order, Fill, is_active, is_filled, is_cancelled, cancel, update_fill}

pub record OrderManager (S D : Type 0) : Type 0 where
  pub orders : Dict String (Order S D)
  pub orders_by_symbol : Dict S (List String)
  pub active_orders : List String
  pub on_order_callbacks : List ℕ
  pub on_fill_callbacks : List ℕ
  pub on_cancel_callbacks : List ℕ
  pub notified : List (ℕ × String)

-- `set.add` and `set.discard`
abbrev pub set_add : String → List String → List String
set_add a xs = if elem a xs then xs else xs ++ (a ∷ [])

abbrev pub discard : String → List String → List String
discard a [] = []
discard a (x ∷ xs) = let rest = discard a xs in if x =? a then rest else x ∷ rest

notify : List ℕ → String → List (ℕ × String) → List (ℕ × String)
notify [] id calls = calls
notify (c ∷ cs) id calls = notify cs id ((c, id) ∷ calls)

module _ {S D : Type 0} where
  -- `OrderManager.__init__`
  unfoldable pub new_manager : OrderManager S D
  new_manager = record {
    orders = [];
    orders_by_symbol = [];
    active_orders = [];
    on_order_callbacks = [];
    on_fill_callbacks = [];
    on_cancel_callbacks = [];
    notified = [];
  }

  -- `get_order`
  unfoldable pub get_order : String → OrderManager S D → Option (Order S D)
  get_order id m = lookup id m.orders

  -- `cancel_order`
  unfoldable pub cancel_order : ℕ → String → OrderManager S D → Bool × OrderManager S D
  unfolding notify
  cancel_order now id m = elim (lookup id m.orders) [
    | none ↦ (false, m)
    | some o ↦
        if is_active o
        then (
          true,
          record m {
            orders = insert id (cancel now o) m.orders;
            active_orders = discard id m.active_orders;
            notified = notify m.on_cancel_callbacks id m.notified;
          },
        )
        else (false, m)
  ]

module _ {S D : Type 0} ⦃e : Eq S⦄ where
  -- `register_order`
  unfoldable pub register_order : Order S D → OrderManager S D → OrderManager S D
  unfolding notify
  register_order o m = record m {
    orders = insert o.order_id o m.orders;
    orders_by_symbol =
        insert o.symbol (get_or o.symbol [] m.orders_by_symbol ++ (o.order_id ∷ []))
          m.orders_by_symbol;
    active_orders = set_add o.order_id m.active_orders;
    notified = notify m.on_order_callbacks o.order_id m.notified;
  }

  -- The orders of a list of ids that are known.
  unfoldable pub known : Dict String (Order S D) → List String → List (Order S D)
  known orders [] = []
  known orders (id ∷ ids) =
      let rest = known orders ids in elim (lookup id orders) [ none ↦ rest | some o ↦ o ∷ rest ]

  -- `get_orders_by_symbol`
  unfoldable pub get_orders_by_symbol : S → OrderManager S D → List (Order S D)
  unfolding known
  get_orders_by_symbol symbol m = known m.orders (get_or symbol [] m.orders_by_symbol)

  -- `symbol is None or order.symbol == symbol`
  unfoldable pub matches : Option S → Order S D → Bool
  matches none o = true
  matches (some s) o = o.symbol =? s

  unfoldable pub select : Option S → List (Order S D) → List (Order S D)
  unfolding matches
  select symbol [] = []
  select symbol (o ∷ os) =
      let rest = select symbol os in if matches symbol o then o ∷ rest else rest

  -- `get_active_orders`
  unfoldable pub get_active_orders : Option S → OrderManager S D → List (Order S D)
  unfolding known select
  get_active_orders symbol m = select symbol (known m.orders m.active_orders)

  -- The loop of `cancel_all_orders`.
  unfoldable pub cancel_each : ℕ → List (Order S D) → OrderManager S D → ℕ × OrderManager S D
  cancel_each now [] m = (0, m)
  cancel_each now (o ∷ os) m =
      let (done, m') = cancel_order now o.order_id m in
      let (n, m'') = cancel_each now os m' in (if done then n + 1 else n, m'')

  -- `cancel_all_orders`
  unfoldable pub cancel_all_orders : ℕ → Option S → OrderManager S D → ℕ × OrderManager S D
  unfolding get_active_orders cancel_each
  cancel_all_orders now symbol m = cancel_each now (get_active_orders symbol m) m

module _ {S D : Type 0} ⦃d : Decimal D⦄ where
  -- `process_fill`; `none` is the exception out of `update_fill`.
  unfoldable pub process_fill : ℕ → String → Fill S D → OrderManager S D → Option (OrderManager S D)
  unfolding notify
  process_fill now id fill m = elim (lookup id m.orders) [
    | none ↦ some m
    | some o ↦ elim (update_fill now fill.quantity fill.fill_price o) [
      | none ↦ none
      | some o' ↦ some (record m {
        orders = insert id o' m.orders;
        active_orders = if is_active o' then m.active_orders else discard id m.active_orders;
        notified = notify m.on_fill_callbacks fill.fill_id m.notified;
      })
    ]
  ]

-- `get_statistics`
pub record Statistics : Type 0 where
  pub total_orders : ℕ
  pub active : ℕ
  pub filled_orders : ℕ
  pub cancelled_orders : ℕ
  pub symbols_traded : ℕ

count_where {ℓ} : {A : Type ℓ} → (A → Bool) → List (String × A) → ℕ
count_where p [] = 0
count_where p ((_, a) ∷ xs) = let n = count_where p xs in if p a then n + 1 else n

unfoldable pub get_statistics : {S D : Type 0} → OrderManager S D → Statistics
unfolding count_where
get_statistics m = record {
  total_orders = length m.orders;
  active = length m.active_orders;
  filled_orders = count_where is_filled m.orders;
  cancelled_orders = count_where is_cancelled m.orders;
  symbols_traded = length m.orders_by_symbol;
}
