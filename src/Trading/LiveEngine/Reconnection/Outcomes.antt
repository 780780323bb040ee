-- ===== src/Trading/LiveEngine/Reconnection/Outcomes.antt =====
-- What a health check of src/trading/live_engine.py comes to where the broker is not connected.
use algo_engine.Prelude.{
  ℕ, ◌≡◌, ◌≢◌, ◌⊎◌, ◌∙◌, not, Bool-cases, ◌&&◌, if◌then◌else◌, refl, subst, sym, Bool, true, false,
  Option, none, some, [], arith, inl, inr,
}
use algo_engine.Prelude.Eq.{Eq}
use algo_engine.Resilience.Breaker.{CircuitBreaker}
use algo_engine.Resilience.Retry.{Outcome, value, propagated, retry_exhausted, assertion_failed}
use algo_engine.Resilience.Retry.Answers.{retry-Answers}
use algo_engine.Trading.Decimal.{Decimal}
use algo_engine.Trading.Order.{Order}
use algo_engine.Trading.Market.{Literals}
use algo_engine.Trading.Execution.{disconnected, is_connected as holds_connection}
use algo_engine.Portfolio.Risk.{Percentages}
use algo_engine.Trading.LiveEngine.{LiveEngine, healthy, degraded, offline, has_broker, is_warmup}
use algo_engine.Trading.LiveEngine.Submission.{
  refusal, submit_order, ask_breaker, after_tests, Refusal,
}
use algo_engine.Trading.LiveEngine.Reconnection.{
  reconnect_now, put_breaker, finish_reconnect, Meanwhile, reconnecting, reconnect_run,
  reconnect_broker, check_broker, perform_health_check,
}
use algo_engine.Trading.LiveEngine.Reconnection.Attempts.{
  IsUp, IsDown, Ends, reconnect_each-Ends, up, down,
}

module _ {S D : Type 0} where
  pub record IsOffline (e : LiveEngine S D) : Type 0 where
    pub down : IsDown e
    pub health : e.health ≡ offline

  -- How a health check ends that finds the broker disconnected.
  data Checked (answers : ℕ → Option Bool) (e : LiveEngine S D) : Type 0 where
    recovered : (n : ℕ) → answers n ≡ some true → IsUp e → Checked answers e
    lost : IsOffline e → Checked answers e

  put_breaker-Ends :
      (answers : ℕ → Option Bool) (cb : Option CircuitBreaker) {o : Outcome Bool}
      {e : LiveEngine S D}
      → Ends answers o e
      → Ends answers o (put_breaker cb e)
  put_breaker-Ends answers none h = h
  put_breaker-Ends answers (some b) (up n k v u) =
      up n k v (record { broker = u.broker; connection = u.connection; health = u.health })
  put_breaker-Ends answers (some b) (down k d) =
      down k (record { broker = d.broker; connection = d.connection })

  finish_reconnect-Checked :
      (answers : ℕ → Option Bool) (o : Outcome Bool) (e : LiveEngine S D)
      → Ends answers o e
      → Checked answers (finish_reconnect o e).1
  finish_reconnect-Checked answers o e (up n k v u) = rw v (recovered n k u)
  finish_reconnect-Checked answers (value a) e (down k d) = absurd (k a refl)
  finish_reconnect-Checked answers (propagated x) e (down k d) =
      lost
        (record { down = record { broker = d.broker; connection = d.connection }; health = refl })
  finish_reconnect-Checked answers (retry_exhausted n x) e (down k d) =
      lost
        (record { down = record { broker = d.broker; connection = d.connection }; health = refl })
  finish_reconnect-Checked answers assertion_failed e (down k d) =
      lost
        (record { down = record { broker = d.broker; connection = d.connection }; health = refl })

  reconnect_now-Checked :
      (w : Meanwhile) (answers : ℕ → Option Bool) (e : LiveEngine S D)
      → IsDown e
      → Checked answers (reconnect_now w answers e).1
  unfolding reconnect_now reconnect_run
  reconnect_now-Checked w answers e d =
      let run = reconnect_run w answers e in
      finish_reconnect-Checked answers run.outcome _ (
        put_breaker-Ends answers run.breaker (
          reconnect_each-Ends w answers e d
            (retry-Answers (reconnecting w answers e) e.config.reconnect_max_attempts []
              (some e.circuit_breaker))
            _ (record { broker = d.broker; connection = d.connection })))

  reconnect_broker-Checked :
      (w : Meanwhile) (answers : ℕ → Option Bool) (e : LiveEngine S D)
      → e.config.auto_reconnect ≡ true
      → IsDown e
      → Checked answers (reconnect_broker w answers e).1
  unfolding reconnect_broker
  reconnect_broker-Checked w answers e on d =
      let may : (e.config.auto_reconnect && has_broker e.execution.broker) ≡ true =
        rw (on, d.broker) refl in
      subst (λ b. Checked answers (if b then reconnect_now w answers e else (false, e)).1) (sym may)
        (reconnect_now-Checked w answers e d)

  check_broker-Checked :
      (w : Meanwhile) (answers : ℕ → Option Bool) (e : LiveEngine S D)
      → e.execution.broker ≡ disconnected
      → e.config.auto_reconnect ≡ true
      → Checked answers (check_broker true w answers e)
  unfolding check_broker
  check_broker-Checked w answers e off on =
      let e' = record e { health = degraded; is_connected = false } in
      let try = (reconnect_broker w answers e').1 in
      let stays : holds_connection e.execution.broker ≡ false = rw off refl in
      subst
        (λ b. Checked answers (
          if b
          then record e { health = healthy; is_connected = true }
          else (if e.config.auto_reconnect then try else e')))
        (sym stays)
        (subst (λ b. Checked answers (if b then try else e')) (sym on)
          (reconnect_broker-Checked w answers e' on (record { broker = off; connection = refl })))

  health_check-Checked :
      (w : Meanwhile) (answers : ℕ → Option Bool) (e : LiveEngine S D)
      → e.execution.broker ≡ disconnected
      → e.config.auto_reconnect ≡ true
      → Checked answers (perform_health_check true w answers e).1
  unfolding perform_health_check
  health_check-Checked w answers e off on =
      let asks : has_broker e.execution.broker ≡ true = rw off refl in
      subst
        (λ b. Checked answers (
          if b
          then check_broker true w answers e
          else record e { health = healthy; is_connected = true }))
        (sym asks) (check_broker-Checked w answers e off on)

module _ {S D : Type 0} ⦃eq : Eq S⦄ ⦃d : Decimal D⦄ ⦃l : Literals D⦄ where
  refusal-offline :
      (b : Bool) (o : Order S D) (e : LiveEngine S D) → e.health ≡ offline → refusal b o e ≢ none
  unfolding refusal
  refusal-offline b o e h = ground (arith, h)

  after_tests_refused :
      (r : Option Refusal) (f : Percentages D) (answer : Option Bool) (check : Bool) (o : Order S D)
      (e : LiveEngine S D)
      → r ≢ none
      → (after_tests r f answer check o e).0 ≢ none
  after_tests_refused none f answer check o e h = absurd (h refl)
  after_tests_refused (some r) f answer check o e h = cc

  ask_breaker-health : (now : ℕ) (e : LiveEngine S D) → (ask_breaker now e).0.health ≡ e.health
  ask_breaker-health now e = elim (Bool-cases (e.running && not (is_warmup e.mode))) [
    | inl h ↦ rw (h, ask_breaker) refl
    | inr h ↦ rw (h, ask_breaker) refl
  ]

  submit_order-offline :
      (f : Percentages D) (answer : Option Bool) (check : Bool) (now : ℕ) (o : Order S D)
      (e : LiveEngine S D)
      → e.health ≡ offline
      → (submit_order f answer check now o e).0 ≢ none
  unfolding submit_order
  submit_order-offline f answer check now o e h =
      let (e', active) = ask_breaker now e in
      after_tests_refused (refusal active o e') f answer check o e'
        (refusal-offline active o e' (ask_breaker-health now e ∙ h))

  -- A check in time of an engine that may reconnect and whose broker is not connected ends in one of
  -- two ways, whatever other tasks do to the circuit breaker meanwhile: the broker took the connection
  -- on some attempt, and the engine is HEALTHY and connected, or the engine is OFFLINE and
  -- disconnected, and the next order that is submitted is refused.
  pub perform_health_check_lem :
      (w : Meanwhile) (answers : ℕ → Option Bool) (f : Percentages D) (answer : Option Bool)
      (check : Bool) (now : ℕ) (o : Order S D) (e : LiveEngine S D)
      → e.execution.broker ≡ disconnected
      → e.config.auto_reconnect ≡ true
      → let e' = (perform_health_check true w answers e).1 in
        ((n : ℕ) × (answers n ≡ some true) × IsUp e')
        ⊎ (IsOffline e' × ((submit_order f answer check now o e').0 ≢ none))
  perform_health_check_lem w answers f answer check now o e off on =
      elim (health_check-Checked w answers e off on) [
        | recovered n k u ↦ inl (n, k, u)
        | lost x ↦ inr (x, submit_order-offline f answer check now o _ x.health)
      ]
