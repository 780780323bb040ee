-- ===== src/Trading/LiveEngine/Standby.antt =====
-- What `pause` of src/trading/live_engine.py does to orders.
use algo_engine.Prelude.{
  ℕ, ◌≡◌, ◌∙◌, refl, sym, ap, subst, ◌∙◌, Bool, true, false, Option, none, some, Bool-cases, inl,
  inr,
}
use algo_engine.Prelude.Eq.{Eq, string_eq}
use algo_engine.Trading.Decimal.{Decimal}
use algo_engine.Trading.Order.{Order}
use algo_engine.Trading.Market.{Literals}
use algo_engine.Trading.Execution.{submit}
use algo_engine.Portfolio.Risk.{Percentages}
use algo_engine.Trading.LiveEngine.{live, LiveEngine, pause}
use algo_engine.Trading.LiveEngine.Submission.{
  refusal, risk_refusal, pass_on, Refusal, after_tests, ask_breaker, submit_order,
}

module _ {S D : Type 0} ⦃eq : Eq S⦄ ⦃d : Decimal D⦄ ⦃l : Literals D⦄ where
  pass_on_same :
      (answer : Option Bool) (o : Order S D) (a b : LiveEngine S D)
      → a.execution ≡ b.execution
      → (pass_on answer o a).0 ≡ (pass_on answer o b).0
  unfolding pass_on
  pass_on_same answer o a b h = elim (Bool-cases (submit answer o a.execution).0) [
    | inl taken ↦
        let same : (submit answer o b.execution).0 ≡ true =
          ap (λ x. (submit answer o x).0) (sym h) ∙ taken in
        rw (taken, same, pass_on) refl
    | inr left ↦
        let same : (submit answer o b.execution).0 ≡ false =
          ap (λ x. (submit answer o x).0) (sym h) ∙ left in
        rw (left, same, pass_on) refl
  ]

  after_tests_same :
      (r : Option Refusal) (f : Percentages D) (answer : Option Bool) (ca cb : Bool) (o : Order S D)
      (a b : LiveEngine S D)
      → a.execution ≡ b.execution
      → risk_refusal f ca o a ≡ none
      → risk_refusal f cb o b ≡ none
      → (after_tests r f answer ca o a).0 ≡ (after_tests r f answer cb o b).0
  after_tests_same (some r) f answer ca cb o a b x p q = refl
  after_tests_same none f answer ca cb o a b x p q = rw (p, q) (pass_on_same answer o a b x)

  live_engine : LiveEngine S D → LiveEngine S D
  live_engine e = record e { running = true; mode = live }

  paused_lem :
      (f : Percentages D) (answer : Option Bool) (now : ℕ) (o : Order S D) (e : LiveEngine S D)
      → (submit_order f answer true now o (pause (live_engine e))).0
        ≡ (submit_order f answer false now o (live_engine e)).0
  unfolding submit_order refusal risk_refusal pause live_engine
  paused_lem f answer now o e =
      let (e', active) = ask_breaker now (live_engine e) in
      let (e'', same) = ask_breaker now (pause (live_engine e)) in
      after_tests_same (refusal active o e') f answer true false o e'' e' refl refl refl

  -- For an engine that runs in LIVE mode, pausing it keeps no order from being submitted: an order that is
  -- submitted after `pause` with its risk check asked for has the outcome that it has without the
  -- pause and without the risk check.
  pub submit_paused :
      (f : Percentages D) (answer : Option Bool) (now : ℕ) (o : Order S D) (e : LiveEngine S D)
      → e.running ≡ true
      → e.mode ≡ live
      → (submit_order f answer true now o (pause e)).0 ≡ (submit_order f answer false now o e).0
  unfolding live_engine
  submit_paused f answer now o e on mode =
      let same : live_engine e ≡ e =
        ap (λ b. record e { running = b; mode = live }) (sym on)
        ∙ ap (λ m. record e { mode = m }) (sym mode) in
      subst
        (λ x.
          (submit_order f answer true now o (pause x)).0 ≡ (submit_order f answer false now o x).0)
        same (paused_lem f answer now o e)
