-- ===== src/Trading/LiveEngine/Limits.antt =====
-- The day's limits and the limit on pending orders of src/trading/live_engine.py.
use algo_engine.Prelude.{
  ℕ, ◌+◌, ◌≤◌, ◌≡◌, refl, Bool, true, not, ◌&&◌, Option, none, arith, length, Bool-cases, inl, inr,
  some, List, ◌∷◌, Option-cases, false,
}
use algo_engine.Prelude.Eq.{Eq, string_eq}
use algo_engine.Trading.Decimal.{Decimal}
use algo_engine.Trading.Order.{Order}
use algo_engine.Trading.Market.{Literals}
use algo_engine.Trading.Execution.{is_connected, submit}
use algo_engine.Portfolio.Risk.{Percentages}
use algo_engine.Trading.LiveEngine.{LiveEngine, is_warmup}
use algo_engine.Trading.LiveEngine.Submission.{
  refusal, risk_refusal, record_submitted, pass_on, Refusal, ask_breaker, begin_order, finish_order,
  submit_order,
}
use algo_engine.Trading.LiveEngine.Narrow.{
  length-set_add, IsWithin, IsNarrow, narrow-IsWithin, IsNarrow-refl, unchanged_IsNarrow,
}

module _ {S D : Type 0} ⦃eq : Eq S⦄ ⦃d : Decimal D⦄ ⦃l : Literals D⦄ where
  open d use {zero, add, leb}

  -- The limits leave room for the order.
  record HasRoom (o : Order S D) (e : LiveEngine S D) : Type 0 where
    pub trades : e.daily_trade_count + 1 ≤ e.config.max_daily_trades
    pub orders : length e.pending_orders + 1 ≤ e.config.max_pending_orders

  refusal-HasRoom :
      (breaker : Bool) (o : Order S D) (e : LiveEngine S D)
      → refusal breaker o e ≡ none
      → HasRoom o e
  unfolding refusal
  refusal-HasRoom breaker o e h = record { trades = ground arith; orders = ground arith }

  ask_breaker-IsNarrow : (now : ℕ) (e : LiveEngine S D) → IsNarrow e (ask_breaker now e).0
  ask_breaker-IsNarrow now e = elim (Bool-cases (e.running && not (is_warmup e.mode))) [
    | inl h ↦ rw (h, ask_breaker) (unchanged_IsNarrow e _ refl refl refl refl)
    | inr h ↦ rw (h, ask_breaker) (IsNarrow-refl e)
  ]

  -- What a taken order adds, where there is room for it.
  record_submitted-IsWithin :
      (others n : ℕ) (o : Order S D) (e : LiveEngine S D)
      → IsWithin others (n + 1) e
      → IsWithin others n (record_submitted o e)
  unfolding record_submitted
  record_submitted-IsWithin others n o e w = record {
    trades = ground (arith, w.trades);
    orders = ground (arith, length-set_add o.order_id e.pending_orders, w.orders);
  }

  -- One more order may wait for the broker where there is room for it.
  fly :
      (others n : ℕ) (o : Order S D) (e : LiveEngine S D)
      → n ≤ others
      → HasRoom o e
      → IsWithin others (n + 1) e
  fly others n o e few room = record {
    trades = ground (arith, few, room.trades);
    orders = ground (arith, few, room.orders);
  }

  fly_list :
      (others : ℕ) (o : Order S D) (os : List (Order S D)) (e : LiveEngine S D)
      → length os ≤ others
      → HasRoom o e
      → IsWithin others (length (o ∷ os)) e
  fly_list others o os e few room = record {
    trades = ground (arith, few, room.trades);
    orders = ground (arith, few, room.orders);
  }

  land : (others n : ℕ) (e : LiveEngine S D) → IsWithin others (n + 1) e → IsWithin others n e
  land others n e w = record {
    trades = ground (arith, w.trades);
    orders = ground (arith, w.orders);
  }

  pub finish_order-IsWithin :
      (others n : ℕ) (answer : Option Bool) (o : Order S D) (e : LiveEngine S D)
      → IsWithin others (n + 1) e
      → IsWithin others n (finish_order answer o e).1
  unfolding finish_order
  finish_order-IsWithin others n (some true) o e w =
      record_submitted-IsWithin others n o _
        (narrow-IsWithin e _ (unchanged_IsNarrow e _ refl refl refl refl) w)
  finish_order-IsWithin others n (some false) o e w =
      narrow-IsWithin e _ (unchanged_IsNarrow e _ refl refl refl refl) (land others n e w)
  finish_order-IsWithin others n none o e w =
      narrow-IsWithin e _ (unchanged_IsNarrow e _ refl refl refl refl) (land others n e w)

  pass_on-IsWithin :
      (others n : ℕ) (answer : Option Bool) (o : Order S D) (e : LiveEngine S D)
      → IsWithin others (n + 1) e
      → IsWithin others n (pass_on answer o e).1
  unfolding pass_on
  pass_on-IsWithin others n answer o e w = elim (Bool-cases (submit answer o e.execution).0) [
    | inl taken ↦
        rw (taken, pass_on)
          (record_submitted-IsWithin others n o _
            (narrow-IsWithin e _ (unchanged_IsNarrow e _ refl refl refl refl) w))
    | inr left ↦
        rw (left, pass_on)
          (narrow-IsWithin e _ (unchanged_IsNarrow e _ refl refl refl refl) (land others n e w))
  ]

  -- The orders that wait for the broker after a submission is begun.
  abbrev pub in_flight : Option Refusal → Order S D → List (Order S D) → List (Order S D)
  in_flight none o os = o ∷ os
  in_flight (some r) o os = os

  pub begin_order-IsWithin :
      (others : ℕ) (f : Percentages D) (check : Bool) (now : ℕ) (o : Order S D)
      (os : List (Order S D)) (e : LiveEngine S D)
      → length os ≤ others
      → IsWithin others (length os) e
      → IsWithin others
          (length (in_flight (begin_order f check now o e).0 o os))
          (begin_order f check now o e).1
  unfolding begin_order
  begin_order-IsWithin others f check now o os e few w =
      let (e', active) = ask_breaker now e in
      let w' = narrow-IsWithin e e' (ask_breaker-IsNarrow now e) w in
      elim (Option-cases (refusal active o e')) [
        | inr (r, refused) ↦ rw (refused, begin_order) w'
        | inl passed ↦ elim (Option-cases (risk_refusal f check o e')) [
          | inr (r, risky) ↦
              rw (passed, risky, begin_order)
                (narrow-IsWithin e' _ (unchanged_IsNarrow e' _ refl refl refl refl) w')
          | inl safe ↦
              rw (passed, safe, begin_order)
                (narrow-IsWithin e' _ (unchanged_IsNarrow e' _ refl refl refl refl)
                  (fly_list others o os e' few (refusal-HasRoom active o e' passed)))
        ]
      ]

  pub submit_order-IsWithin :
      (others n : ℕ) (f : Percentages D) (answer : Option Bool) (check : Bool) (now : ℕ)
      (o : Order S D) (e : LiveEngine S D)
      → n ≤ others
      → IsWithin others n e
      → IsWithin others n (submit_order f answer check now o e).1
  unfolding submit_order
  submit_order-IsWithin others n f answer check now o e few w =
      let (e', active) = ask_breaker now e in
      let w' = narrow-IsWithin e e' (ask_breaker-IsNarrow now e) w in
      elim (Option-cases (refusal active o e')) [
        | inr (r, refused) ↦ rw (refused, submit_order) w'
        | inl passed ↦ elim (Option-cases (risk_refusal f check o e')) [
          | inr (r, risky) ↦
              rw (passed, risky, submit_order)
                (narrow-IsWithin e' _ (unchanged_IsNarrow e' _ refl refl refl refl) w')
          | inl safe ↦
              rw (passed, safe, submit_order)
                (pass_on-IsWithin others n answer o e'
                  (fly others n o e' few (refusal-HasRoom active o e' passed)))
        ]
      ]

  -- With a broker that is connected, an order that passes the checks is submitted as its two parts do
  -- one after the other.
  submit_order-finish_order :
      (f : Percentages D) (answer : Option Bool) (check : Bool) (now : ℕ) (o : Order S D)
      (e : LiveEngine S D)
      → let e' = (ask_breaker now e).0 in
        is_connected e'.execution.broker ≡ true
        → (begin_order f check now o e).0 ≡ none
        → submit_order f answer check now o e
          ≡ finish_order answer o (begin_order f check now o e).1
  unfolding submit_order begin_order finish_order pass_on submit
  submit_order-finish_order f answer check now o e here passed =
      let (e', active) = ask_breaker now e in
      elim (Option-cases (refusal active o e')) [
        | inr (r, refused) ↦ absurd (let wrong : ⊥ = ground arith in wrong)
        | inl clear ↦ elim (Option-cases (risk_refusal f check o e')) [
          | inr (r, risky) ↦ absurd (let wrong : ⊥ = ground arith in wrong)
          | inl safe ↦ rw (clear, safe, here, submit_order, begin_order, pass_on, submit) refl
        ]
      ]
