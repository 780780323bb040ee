-- ===== src/Trading/LiveEngine/Reach.antt =====
-- The states that src/trading/live_engine.py reaches.
use algo_engine.Prelude.{
  ℕ, ◌≡◌, refl, sym, ap, subst, Bool, true, Option, some, List, [], ◌∷◌, ◌++◌, ◌+◌, ◌≤◌, ◌∙◌,
  length, String, arith, Option-cases, Bool-cases, inl, inr,
}
use algo_engine.Prelude.Eq.{Eq, string_eq}
use algo_engine.Prelude.Dict.{Dict}
use algo_engine.Resilience.Breaker.{CircuitBreaker}
use algo_engine.Trading.Decimal.{Decimal}
use algo_engine.Trading.Order.{Order, OrderStatus}
use algo_engine.Trading.Market.{Literals, Tick}
use algo_engine.Trading.Execution.{ExecutionEngine, process_tick}
use algo_engine.Portfolio.Risk.{Percentages, RiskManager}
use algo_engine.Trading.LiveEngine.{
  with_broker, LiveEngineConfig, LiveTradingMode, new_live, set_risk_manager, LiveEngine, pause,
  resume, daily_reset,
}
use algo_engine.Trading.LiveEngine.Cancellation.{
  cancel_order, cancel_all_orders, pending_of, stop_live,
}
use algo_engine.Trading.LiveEngine.Connection.{broker_after, start}
use algo_engine.Trading.LiveEngine.OrderSync.{sync_orders}
use algo_engine.Trading.LiveEngine.Submission.{submit_order, begin_order, finish_order}
use algo_engine.Trading.LiveEngine.Ticks.{handle_fills, watch_drawdown, process_market_data}
use algo_engine.Trading.LiveEngine.Narrow.{
  IsWithin, IsNarrow, narrow-IsWithin, IsNarrow-trans, unchanged_IsNarrow, cancel_each-IsNarrow,
  cancel_order-IsNarrow, pause-IsNarrow, resume-IsNarrow,
}
use algo_engine.Trading.LiveEngine.Narrow.Calls.{
  sync_orders-IsNarrow, start-IsNarrow, stop_live-IsNarrow, handle_fills-IsNarrow,
  watch_drawdown-IsNarrow,
}
use algo_engine.Trading.LiveEngine.Narrow.Health.{health_check-IsNarrow}
use algo_engine.Trading.LiveEngine.Reconnection.{Meanwhile, perform_health_check}
use algo_engine.Trading.LiveEngine.Limits.{
  in_flight, begin_order-IsWithin, finish_order-IsWithin, submit_order-IsWithin,
}

length-split :
    {A : Type 0} (x : A) (xs ys : List A) → length (xs ++ (x ∷ ys)) ≡ length (xs ++ ys) + 1
length-split x [] ys = ground arith
length-split x (z ∷ xs) ys = ground (arith, length-split x xs ys)

module _ {S D : Type 0} ⦃eq : Eq S⦄ ⦃d : Decimal D⦄ ⦃l : Literals D⦄ where
  -- One call of the engine other than a submission, one turn of its loops, or the loss of the
  -- broker's connection. A tick is a step where processing it does not raise.
  pub data Step (label : ℕ → String) (f : Percentages D) (e : LiveEngine S D)
      : LiveEngine S D → Type 0 where
    starts : (answer : Option Bool) → Step label f e (start answer e).1
    stops : (now : ℕ) (leaves : Bool) → Step label f e (stop_live now leaves e)
    pauses : Step label f e (pause e)
    resumes : Step label f e (resume e)
    attaches : (m : RiskManager S D) → Step label f e (set_risk_manager m e)
    cancels : (now : ℕ) (id : String) → Step label f e (cancel_order now id e).1
    cancels_all : (now : ℕ) (symbol : Option S) → Step label f e (cancel_all_orders now symbol e).1
    ticks :
        (now : ℕ) (value : D) (t : Tick S D) {e' : LiveEngine S D}
        → process_market_data label f now value t e ≡ some e'
        → Step label f e e'
    syncs : (at_broker : Dict String OrderStatus) → Step label f e (sync_orders at_broker e)
    resets : Step label f e (daily_reset e)
    checks :
        (in_time : Bool) (w : Meanwhile) (answers : ℕ → Option Bool)
        → Step label f e (perform_health_check in_time w answers e).1
    drops : Step label f e (with_broker (broker_after true e.execution.broker) e)

  -- A step, with the orders that the broker is yet to answer. A submission may be begun, or made at
  -- once, while at most `others` of them wait; each of them may be answered at any later time.
  pub data Turn (label : ℕ → String) (f : Percentages D) (others : ℕ) (e : LiveEngine S D)
      (os : List (Order S D)) : LiveEngine S D → List (Order S D) → Type 0 where
    steps : {e' : LiveEngine S D} → Step label f e e' → Turn label f others e os e' os
    submits :
        (answer : Option Bool) (check : Bool) (now : ℕ) (o : Order S D)
        → length os ≤ others
        → Turn label f others e os (submit_order f answer check now o e).1 os
    begins :
        (check : Bool) (now : ℕ) (o : Order S D)
        → length os ≤ others
        → Turn label f others e os
            (begin_order f check now o e).1
            (in_flight (begin_order f check now o e).0 o os)
    finishes :
        (answer : Option Bool) (o : Order S D) (before after : List (Order S D))
        → os ≡ before ++ (o ∷ after)
        → Turn label f others e os (finish_order answer o e).1 (before ++ after)

  pub data Reach (label : ℕ → String) (f : Percentages D) (others : ℕ) (e : LiveEngine S D)
      : LiveEngine S D → List (Order S D) → Type 0 where
    here : Reach label f others e e []
    later :
        {a b : LiveEngine S D} {os ps : List (Order S D)}
        → Reach label f others e a os
        → Turn label f others a os b ps
        → Reach label f others e b ps

  tick-IsNarrow :
      (label : ℕ → String) (f : Percentages D) (now : ℕ) (value : D) (t : Tick S D)
      (e : LiveEngine S D) {e' : LiveEngine S D}
      → process_market_data label f now value t e ≡ some e'
      → IsNarrow e e'
  unfolding process_market_data
  tick-IsNarrow label f now value t e {e'} h = elim (Bool-cases e.running) [
    | inr off ↦
        let same : e ≡ e' = ground arith in
        unchanged_IsNarrow e e' (ap (λ x. x.config) (sym same))
          (ap (λ x. x.daily_trade_count) (sym same)) (ap (λ x. x.daily_volume) (sym same))
          (ap (λ x. x.pending_orders) (sym same))
    | inl on ↦
        elim (Option-cases (process_tick label now t (record e.execution { delivered = [] }))) [
          | inl failed ↦ absurd (let wrong : ⊥ = ground arith in wrong)
          | inr (x, done) ↦
              let e1 = record e { execution = x } in
              let e2 = handle_fills x.delivered e1 in
              let same : watch_drawdown f now value e2 ≡ e' = ground arith in
              subst (IsNarrow e) same (
                IsNarrow-trans e e2 _
                  (IsNarrow-trans e e1 e2 (unchanged_IsNarrow e e1 refl refl refl refl)
                    (handle_fills-IsNarrow x.delivered e1))
                  (watch_drawdown-IsNarrow f now value e2))
        ]
  ]

  daily_reset-IsWithin :
      {others n : ℕ} (e : LiveEngine S D) → IsWithin others n e → IsWithin others n (daily_reset e)
  unfolding daily_reset
  daily_reset-IsWithin e w = record { trades = ground (arith, w.trades); orders = w.orders }

  set_risk_manager-IsNarrow :
      (m : RiskManager S D) (e : LiveEngine S D) → IsNarrow e (set_risk_manager m e)
  unfolding set_risk_manager
  set_risk_manager-IsNarrow m e = unchanged_IsNarrow e _ refl refl refl refl

  step-IsWithin :
      (label : ℕ → String) (f : Percentages D) {others n : ℕ} {e e' : LiveEngine S D}
      → Step label f e e'
      → IsWithin others n e
      → IsWithin others n e'
  unfolding cancel_all_orders
  step-IsWithin label f {e = e} (starts answer) w = narrow-IsWithin e _ (start-IsNarrow answer e) w
  step-IsWithin label f {e = e} (stops now leaves) w =
      narrow-IsWithin e _ (stop_live-IsNarrow now leaves e) w
  step-IsWithin label f {e = e} pauses w = narrow-IsWithin e _ (pause-IsNarrow e) w
  step-IsWithin label f {e = e} resumes w = narrow-IsWithin e _ (resume-IsNarrow e) w
  step-IsWithin label f {e = e} (attaches m) w =
      narrow-IsWithin e _ (set_risk_manager-IsNarrow m e) w
  step-IsWithin label f {e = e} (cancels now id) w =
      narrow-IsWithin e _ (cancel_order-IsNarrow now id e) w
  step-IsWithin label f {e = e} (cancels_all now symbol) w =
      narrow-IsWithin e _ (cancel_each-IsNarrow now (pending_of symbol e e.pending_orders) e) w
  step-IsWithin label f {e = e} (ticks now value t h) w =
      narrow-IsWithin e _ (tick-IsNarrow label f now value t e h) w
  step-IsWithin label f {e = e} (syncs at_broker) w =
      narrow-IsWithin e _ (sync_orders-IsNarrow at_broker e) w
  step-IsWithin label f {e = e} resets w = daily_reset-IsWithin e w
  step-IsWithin label f {e = e} (checks in_time m answers) w =
      narrow-IsWithin e _ (health_check-IsNarrow in_time m answers e) w
  step-IsWithin label f {e = e} drops w =
      narrow-IsWithin e _ (unchanged_IsNarrow e _ refl refl refl refl) w

  turn-IsWithin :
      (label : ℕ → String) (f : Percentages D) (others : ℕ) {e e' : LiveEngine S D}
      {os ps : List (Order S D)}
      → Turn label f others e os e' ps
      → IsWithin others (length os) e
      → IsWithin others (length ps) e'
  turn-IsWithin label f others (steps s) w = step-IsWithin label f s w
  turn-IsWithin label f others {e = e} {os = os} (submits answer check now o few) w =
      submit_order-IsWithin others (length os) f answer check now o e few w
  turn-IsWithin label f others {e = e} {os = os} (begins check now o few) w =
      begin_order-IsWithin others f check now o os e few w
  turn-IsWithin label f others {e = e} (finishes answer o before after split) w =
      finish_order-IsWithin others (length (before ++ after)) answer o e
        (subst (λ n. IsWithin others n e) (ap length split ∙ length-split o before after) w)

  Reach-IsWithin :
      (label : ℕ → String) (f : Percentages D) (others : ℕ) {e e' : LiveEngine S D}
      {os : List (Order S D)}
      → Reach label f others e e' os
      → IsWithin others 0 e
      → IsWithin others (length os) e'
  Reach-IsWithin label f others here w = w
  Reach-IsWithin label f others (later r s) w =
      turn-IsWithin label f others s (Reach-IsWithin label f others r w)

  -- From a new engine, in each state that any sequence of starts, stops, pauses, resumes,
  -- submissions with and without a risk check, cancellations, ticks, synchronisations with the
  -- broker's orders, daily resets, health checks with their reconnections and losses of the broker's
  -- connection reaches, where other steps come between the checks of a submission and the broker's
  -- answer, whatever it is, and a submission begins only while at most `others` wait for theirs:
  -- the day's trades with the submissions that wait are at most their limit and `others`, and so are
  -- the pending orders with them. Where no two submissions overlap, the limits themselves hold.
  pub reachable-IsWithin :
      (label : ℕ → String) (f : Percentages D) (config : LiveEngineConfig D)
      (mode : LiveTradingMode) (x : ExecutionEngine S D) (b : CircuitBreaker) (others : ℕ)
      {e : LiveEngine S D} {os : List (Order S D)}
      → Reach label f others (new_live config mode x b) e os
      → IsWithin others (length os) e
  unfolding new_live
  reachable-IsWithin label f config mode x b others r =
      Reach-IsWithin label f others r (record { trades = ground arith; orders = ground arith })
