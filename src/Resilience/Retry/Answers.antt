-- ===== src/Resilience/Retry/Answers.antt =====
-- The calls that the retry loop of src/utils/error_handler.py makes, and its outcome.
use algo_engine.Prelude.{
  ℕ, zero, suc, ◌+◌, ◌≡◌, ◌≢◌, ◌⊎◌, ◌∙◌, ap, refl, sym, subst, true, false, Option, none, some,
  List, [], ◌∷◌, String, arith, Option-cases, Bool-cases, inl, inr,
}
use algo_engine.Resilience.Exceptions.{Exception}
use algo_engine.Resilience.Breaker.{CircuitBreaker, admit}
use algo_engine.Resilience.Retry.{
  Attempt, returned, raised, Outcome, value, Surroundings, judge, breaker_open_error, execute,
  try_once, raised_by, after_loop, sleep, retry_from, retry_async, note_call, Tried,
}

Attempt-cases {ℓ} :
    {A : Type ℓ} (t : Attempt A) → ((a : A) × (t ≡ returned a)) ⊎ ((e : Exception) × (t ≡ raised e))
Attempt-cases (returned a) = inl (a, refl)
Attempt-cases (raised e) = inr (e, refl)

module _ {ℓ} {A : Type ℓ} (s : Surroundings A) where
  -- The calls of a list and an outcome: either some call returns the value that comes out, and those
  -- before it raise, or all calls raise, and no value comes out.
  pub data Answers : Outcome A → List ℕ → Type ℓ where
    failed : {o : Outcome A} → ((a : A) → o ≢ value a) → Answers o []
    answered : (n : ℕ) (a : A) → s.fn n ≡ returned a → Answers (value a) (n ∷ [])
    missed :
        (n : ℕ) (e : Exception) {o : Outcome A} {ns : List ℕ}
        → s.fn n ≡ raised e
        → Answers o ns
        → Answers o (n ∷ ns)

  -- How an attempt can go: `fn` is called, or the breaker refuses.
  try_once-cases :
      (n : ℕ) (cb : Option CircuitBreaker)
      → ((try_once s n cb).ran ≡ true) × ((try_once s n cb).ended ≡ s.fn n)
        ⊎ ((try_once s n cb).ran ≡ false) × ((try_once s n cb).ended ≡ raised breaker_open_error)
  unfolding try_once execute
  try_once-cases n none = inl (refl, refl)
  try_once-cases n (some b) = elim (Bool-cases (admit (s.clock n).0 b).1) [
    | inl h ↦ rw (h, execute) (inl (refl, refl))
    | inr h ↦ rw (h, execute) (inr (refl, refl))
  ]

  module _ (max_attempts : ℕ) (extra : List String) where
    judge-raised :
        (n : ℕ) (e : Exception) {o : Outcome A}
        → judge n max_attempts extra (raised e) ≡ some o
        → (a : A) → o ≢ value a
    unfolding judge
    judge-raised n e h a = ground arith

    after_loop-ne : (last : Option Exception) (a : A) → after_loop s max_attempts last ≢ value a
    unfolding after_loop
    after_loop-ne none a = cc
    after_loop-ne (some e) a = cc

    -- The last attempt of the loop, `t`.
    stop_Answers :
        (n : ℕ) (t : Tried A) (o : Outcome A)
        → ((t.ran ≡ true) × (t.ended ≡ s.fn n))
          ⊎ ((t.ran ≡ false) × (t.ended ≡ raised breaker_open_error))
        → judge n max_attempts extra t.ended ≡ some o
        → Answers o (note_call s n t.ran [])
    unfolding judge
    stop_Answers n t o (inr (idle, e)) h =
        rw idle (failed (judge-raised n breaker_open_error (rw e at h)))
    stop_Answers n t o (inl (ran, e)) h = elim (Attempt-cases (s.fn n)) [
      | inl (a, good) ↦
          let same : value a ≡ o = ground (arith, h, e, good) in
          rw ran (subst (λ x. Answers x (n ∷ [])) same (answered n a good))
      | inr (x, bad) ↦
          let h' : judge n max_attempts extra (raised x) ≡ some o =
            ap (judge n max_attempts extra) (sym (e ∙ bad)) ∙ h in
          rw ran (missed n x bad (failed (judge-raised n x h')))
    ]

    -- An attempt of the loop that is not its last.
    again_Answers :
        (n : ℕ) (t : Tried A) (o : Outcome A) (ns : List ℕ)
        → ((t.ran ≡ true) × (t.ended ≡ s.fn n))
          ⊎ ((t.ran ≡ false) × (t.ended ≡ raised breaker_open_error))
        → judge n max_attempts extra t.ended ≡ none
        → Answers o ns
        → Answers o (note_call s n t.ran ns)
    unfolding judge
    again_Answers n t o ns (inr (idle, e)) h k = rw idle k
    again_Answers n t o ns (inl (ran, e)) h k = elim (Attempt-cases (s.fn n)) [
      | inl (a, good) ↦ absurd (let wrong : ⊥ = ground (arith, h, e, good) in wrong)
      | inr (x, bad) ↦ rw ran (missed n x bad k)
    ]

    from_Answers :
        (left n : ℕ) (last : Option Exception) (cb : Option CircuitBreaker)
        → let r = retry_from s max_attempts extra left n last cb in Answers r.outcome r.called
    unfolding retry_from
    from_Answers zero n last cb = failed (after_loop-ne last)
    from_Answers (suc left) n last cb =
        let t = try_once s n cb in
        elim (Option-cases (judge n max_attempts extra t.ended)) [
          | inr (o, h) ↦ rw (h, retry_from) (stop_Answers n t o (try_once-cases n cb) h)
          | inl h ↦
              rw (h, retry_from)
                (again_Answers n t _ _ (try_once-cases n cb) h
                  (from_Answers left (n + 1) (raised_by s t.ended) (sleep s n t.breaker)))
        ]

    -- With or without a breaker, and whatever other tasks do to it: each call but the last raises,
    -- and the loop comes to a value exactly if the last call returns it.
    pub retry-Answers :
        (cb : Option CircuitBreaker)
        → let r = retry_async s max_attempts extra cb in Answers r.outcome r.called
    unfolding retry_async
    retry-Answers cb = from_Answers max_attempts 1 none cb
