-- ===== src/Trading/LiveEngine/Narrow.antt =====
-- Steps of src/trading/live_engine.py that count no order and add no pending one.
pub mod Calls
pub mod Health
use algo_engine.Prelude.{
  ℕ, ◌+◌, ◌≤◌, ◌≡◌, ◌∙◌, refl, sym, subst, Bool, true, false, not, ◌&&◌, ◌||◌, Option, none, some,
  List, [], ◌∷◌, ◌++◌, String, arith, if◌then◌else◌, length, Option-cases, Bool-cases, inl, inr,
}
use algo_engine.Prelude.Eq.{string_eq, elem}
use algo_engine.Prelude.Dict.{Dict, lookup, contains}
use algo_engine.Trading.Decimal.{Decimal}
use algo_engine.Trading.Order.{OrderStatus, Fill}
use algo_engine.Trading.OrderManager.{set_add, discard, get_order}
use algo_engine.Trading.Execution.{Broker, no_broker, connected, disconnected, cancel}
use algo_engine.Portfolio.Risk.{Percentages}
use algo_engine.Trading.LiveEngine.{LiveEngine, pause, resume, is_live, is_standby, has_broker}
use algo_engine.Trading.LiveEngine.Cancellation.{cancel_one, cancel_order, cancel_each, stop_live}
use algo_engine.Trading.LiveEngine.Connection.{
  finish_start, start, connect_by, connect_broker, disconnect_broker,
}
use algo_engine.Trading.LiveEngine.OrderSync.{
  sync_order, sync_each, sync_orders, write_status, is_final, status_eq,
}
use algo_engine.Trading.LiveEngine.Ticks.{handle_fill, handle_fills, watch_drawdown}

length-discard : (a : String) (xs : List String) → length (discard a xs) ≤ length xs
length-discard a [] = ground arith
length-discard a (x ∷ xs) = ground (arith, length-discard a xs)

length_end : (a : String) (xs : List String) → length (xs ++ (a ∷ [])) ≡ length xs + 1
length_end a [] = refl
length_end a (x ∷ xs) = ground (arith, length_end a xs)

pub length-set_add : (a : String) (xs : List String) → length (set_add a xs) ≤ length xs + 1
length-set_add a xs = ground (arith, length_end a xs)

module _ {S D : Type 0} ⦃d : Decimal D⦄ where
  open d use {zero, leb}

  -- The day's trades with the `n` orders that the broker is yet to answer exceed their limit by at
  -- most `others`, and so do the pending orders with them.
  pub record IsWithin (others n : ℕ) (e : LiveEngine S D) : Type 0 where
    pub trades : e.daily_trade_count + n ≤ e.config.max_daily_trades + others
    pub orders : length e.pending_orders + n ≤ e.config.max_pending_orders + others

  -- A step that changes no limit and no count and adds no pending order.
  pub record IsNarrow (e e' : LiveEngine S D) : Type 0 where
    pub config : e'.config ≡ e.config
    pub trades : e'.daily_trade_count ≡ e.daily_trade_count
    pub volume : e'.daily_volume ≡ e.daily_volume
    pub orders : length e'.pending_orders ≤ length e.pending_orders

  pub narrow-IsWithin :
      (e e' : LiveEngine S D) {others n : ℕ}
      → IsNarrow e e'
      → IsWithin others n e
      → IsWithin others n e'
  narrow-IsWithin e e' h w = record {
    trades = ground (arith, h.config, h.trades, w.trades);
    orders = ground (arith, h.config, h.orders, w.orders);
  }

  pub IsNarrow-trans : (a b c : LiveEngine S D) → IsNarrow a b → IsNarrow b c → IsNarrow a c
  IsNarrow-trans a b c m n = record {
    config = n.config ∙ m.config;
    trades = n.trades ∙ m.trades;
    volume = n.volume ∙ m.volume;
    orders = ground (arith, n.orders, m.orders);
  }

  pub IsNarrow-refl : (e : LiveEngine S D) → IsNarrow e e
  IsNarrow-refl e = record { config = refl; trades = refl; volume = refl; orders = ground arith }

  pub unchanged_IsNarrow :
      (e e' : LiveEngine S D)
      → e'.config ≡ e.config
      → e'.daily_trade_count ≡ e.daily_trade_count
      → e'.daily_volume ≡ e.daily_volume
      → e'.pending_orders ≡ e.pending_orders
      → IsNarrow e e'
  unchanged_IsNarrow e e' c t v o = record {
    config = c;
    trades = t;
    volume = v;
    orders = subst (λ xs. length xs ≤ length e.pending_orders) (sym o) (ground arith);
  }

  pub discard-IsNarrow :
      (id : String) (e e' : LiveEngine S D)
      → e'.config ≡ e.config
      → e'.daily_trade_count ≡ e.daily_trade_count
      → e'.daily_volume ≡ e.daily_volume
      → e'.pending_orders ≡ discard id e.pending_orders
      → IsNarrow e e'
  discard-IsNarrow id e e' c t v o = record {
    config = c;
    trades = t;
    volume = v;
    orders =
        subst (λ xs. length xs ≤ length e.pending_orders) (sym o)
          (length-discard id e.pending_orders);
  }

  pub pick_IsNarrow :
      (b : Bool) (e x y : LiveEngine S D)
      → IsNarrow e x
      → IsNarrow e y
      → IsNarrow e (if b then x else y)
  pick_IsNarrow true e x y h k = h
  pick_IsNarrow false e x y h k = k

  pub pick_result :
      (b : Bool) (e : LiveEngine S D) (x y : Bool × LiveEngine S D)
      → IsNarrow e x.1
      → IsNarrow e y.1
      → IsNarrow e (if b then x else y).1
  pick_result true e x y h k = h
  pick_result false e x y h k = k

  cancel_one-IsNarrow :
      (now : ℕ) (id : String) (e : LiveEngine S D) → IsNarrow e (cancel_one now id e).1
  unfolding cancel_one
  cancel_one-IsNarrow now id e = elim (Bool-cases (cancel now id e.execution).0) [
    | inl done ↦ rw (done, cancel_one) (discard-IsNarrow id e _ refl refl refl refl)
    | inr kept ↦ rw (kept, cancel_one) (unchanged_IsNarrow e _ refl refl refl refl)
  ]

  pub cancel_each-IsNarrow :
      (now : ℕ) (ids : List String) (e : LiveEngine S D) → IsNarrow e (cancel_each now ids e).1
  unfolding cancel_each
  cancel_each-IsNarrow now [] e = IsNarrow-refl e
  cancel_each-IsNarrow now (id ∷ ids) e =
      IsNarrow-trans e (cancel_one now id e).1 _ (cancel_one-IsNarrow now id e)
        (cancel_each-IsNarrow now ids (cancel_one now id e).1)

  pub cancel_order-IsNarrow :
      (now : ℕ) (id : String) (e : LiveEngine S D) → IsNarrow e (cancel_order now id e).1
  unfolding cancel_order
  cancel_order-IsNarrow now id e = elim (Bool-cases (elem id e.pending_orders)) [
    | inl here ↦ rw (here, cancel_order) (cancel_one-IsNarrow now id e)
    | inr away ↦ elim (Option-cases (get_order id e.execution.order_manager)) [
      | inl gone ↦ rw (away, gone, cancel_order) (IsNarrow-refl e)
      | inr (o, there) ↦ rw (away, there, cancel_order) (cancel_one-IsNarrow now id e)
    ]
  ]

  pub pause-IsNarrow : (e : LiveEngine S D) → IsNarrow e (pause e)
  unfolding pause
  pause-IsNarrow e = elim (Bool-cases (e.running && is_live e.mode)) [
    | inl h ↦ rw (h, pause) (unchanged_IsNarrow e _ refl refl refl refl)
    | inr h ↦ rw (h, pause) (IsNarrow-refl e)
  ]

  pub resume-IsNarrow : (e : LiveEngine S D) → IsNarrow e (resume e)
  unfolding resume
  resume-IsNarrow e = elim (Bool-cases (e.running && is_standby e.mode)) [
    | inl h ↦ rw (h, resume) (unchanged_IsNarrow e _ refl refl refl refl)
    | inr h ↦ rw (h, resume) (IsNarrow-refl e)
  ]
