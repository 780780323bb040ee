-- ===== src/Trading/Order.antt =====
-- `Order` and `Fill` of src/trading/models.py. Fields that no method reads or writes (the broker's
-- and the client's order ids, tags, the strategy, and the times of creation and submission) are left
-- out. A reading of the clock is an argument; symbols are any type with `==`.
use algo_engine.Prelude.{
  ℕ, ◌≡◌, ◌≢◌, Bool, true, false, Option, none, some, String, arith, if◌then◌else◌,
}
use algo_engine.Trading.Decimal.{Decimal, IsExact, IsOrdered}

pub data OrderType : Type 0 where
  market limit stop stop_limit : OrderType

pub data OrderSide : Type 0 where
  buy sell : OrderSide

pub data OrderStatus : Type 0 where
  submitted accepted pending partially_filled filled cancelled rejected expired : OrderStatus

pub data TimeInForce : Type 0 where
  day gtc ioc fok : TimeInForce

pub record Order (S D : Type 0) : Type 0 where
  pub symbol : S
  pub side : OrderSide
  pub quantity : D
  pub order_type : OrderType
  pub limit_price : Option D
  pub stop_price : Option D
  pub time_in_force : TimeInForce
  pub order_id : String
  pub status : OrderStatus
  pub filled_quantity : D
  pub remaining_quantity : D
  pub avg_fill_price : Option D
  pub updated_at : Option ℕ
  pub filled_at : Option ℕ
  pub cancelled_at : Option ℕ

pub record Fill (S D : Type 0) : Type 0 where
  pub order_id : String
  pub symbol : S
  pub side : OrderSide
  pub quantity : D
  pub fill_price : D
  pub fill_time : ℕ
  pub fill_id : String
  pub commission : D
  pub slippage : D

active_status : OrderStatus → Bool
active_status submitted = true
active_status accepted = true
active_status pending = true
active_status partially_filled = true
active_status _ = false

filled_status : OrderStatus → Bool
filled_status filled = true
filled_status _ = false

cancelled_status : OrderStatus → Bool
cancelled_status cancelled = true
cancelled_status _ = false

module _ {S D : Type 0} where
  unfoldable pub is_active : Order S D → Bool
  unfolding active_status
  is_active o = active_status o.status

  unfoldable pub is_filled : Order S D → Bool
  unfolding filled_status
  is_filled o = filled_status o.status

  unfoldable pub is_cancelled : Order S D → Bool
  unfolding cancelled_status
  is_cancelled o = cancelled_status o.status

  -- `cancel`
  unfoldable pub cancel : ℕ → Order S D → Order S D
  unfolding is_active
  cancel now o =
      if is_active o
      then record o { status = cancelled; cancelled_at = some now; updated_at = some now }
      else o

module _ {S D : Type 0} ⦃d : Decimal D⦄ where
  open d use {zero, add, sub, mul, div, leb, eqb}

  -- The new average price; `none` is the exception, of a missing average or of the division.
  new_average : Order S D → D → D → Option D
  new_average o fill_quantity fill_price =
      if eqb o.filled_quantity zero then some fill_price else elim o.avg_fill_price [
        | none ↦ none
        | some avg ↦
            div (add (mul o.filled_quantity avg) (mul fill_quantity fill_price))
              (add o.filled_quantity fill_quantity)
      ]

  abbrev book_fill : ℕ → D → D → Order S D → Order S D
  book_fill now fill_quantity avg o =
      let remaining = sub o.remaining_quantity fill_quantity in
      let o' = record o {
        avg_fill_price = some avg;
        filled_quantity = add o.filled_quantity fill_quantity;
        remaining_quantity = remaining;
        updated_at = some now;
      } in
      if leb remaining zero
      then record o' { status = filled; filled_at = some now }
      else record o' { status = partially_filled }

  -- `update_fill`; an exception comes before any field is written.
  unfoldable pub update_fill : ℕ → D → D → Order S D → Option (Order S D)
  unfolding new_average
  update_fill now fill_quantity fill_price o = elim (new_average o fill_quantity fill_price) [
    | none ↦ none
    | some avg ↦ some (book_fill now fill_quantity avg o)
  ]

  -- Where sums are exact and comparisons are an order, a fill that is booked moves its quantity from what remains to what is filled; the order
  -- is FILLED exactly if the fill covers all that remained, and PARTIALLY_FILLED if not. What was
  -- asked for, and whose order it is, stay as they are, and there is an
  -- average price.
  pub update_fill_lem :
      IsExact D
      → IsOrdered D
      → (now : ℕ) (q p : D) (o : Order S D) {o' : Order S D} → update_fill now q p o ≡ some o'
      → (add o'.filled_quantity o'.remaining_quantity ≡ add o.filled_quantity o.remaining_quantity)
        × (o'.status ≡ (if leb o.remaining_quantity q then filled else partially_filled))
        × (o'.quantity ≡ o.quantity)
        × (o'.order_id ≡ o.order_id)
        × (o'.avg_fill_price ≢ none)
  unfolding update_fill
  update_fill_lem exact ordered now q p o h = ground (
    arith,
    exact.add_sub o.filled_quantity q o.remaining_quantity,
    ordered.sub_le_zero o.remaining_quantity q,
  )
