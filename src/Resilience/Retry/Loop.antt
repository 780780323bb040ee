-- ===== src/Resilience/Retry/Loop.antt =====
-- The retry loop of src/utils/error_handler.py: which attempts are made, and what comes out.
use algo_engine.Prelude.{
  ℕ, zero, suc, ◌+◌, ◌-◌, ◌≤◌, ◌<◌, ◌≡◌, ◌≢◌, refl, false, Option, none, some, List, [], ◌∷◌,
  String, arith, Option-cases, inl, inr, length, All, subst, sym,
}
use algo_engine.Resilience.Exceptions.{Exception, isinstance}
use algo_engine.Resilience.Breaker.{CircuitBreaker, admit}
use algo_engine.Resilience.Breaker.Behaviour.{IsCooling, admit_cooling}
use algo_engine.Resilience.Retry.{
  Attempt, returned, raised, Outcome, propagated, assertion_failed, Surroundings, Run, judge,
  breaker_open_error, execute, try_once, raised_by, sleep, retry_from, retry_async,
}

-- `from`, `from + 1`, …, `n` numbers.
abbrev pub count_up : ℕ → ℕ → List ℕ
count_up from zero = []
count_up from (suc n) = from ∷ count_up (from + 1) n

module _ {ℓ} {A : Type ℓ} (s : Surroundings A) (max_attempts : ℕ) (extra : List String) where
  -- The verdict on an attempt with no breaker.
  abbrev verdict : ℕ → Option (Outcome A)
  verdict i = judge i max_attempts extra (s.fn i)

  -- The loop that begins with attempt `from` is decided by attempt `k`: all before it are judged
  -- worth another try, each of them is followed by a sleep, and attempt `k` gives the outcome.
  pub record IsDecided (from k : ℕ) (r : Run A) : Type ℓ where
    pub earliest : from ≤ k
    pub latest : k ≤ max_attempts
    pub undecided : All (λ i. verdict i ≡ none) r.slept
    pub decided : verdict k ≡ some r.outcome
    pub calls : r.called ≡ count_up from (k + 1 - from)
    pub sleeps : r.slept ≡ count_up from (k - from)

  judge_last : (a : Attempt A) → judge max_attempts max_attempts extra a ≢ none
  unfolding judge
  judge_last (returned a) = cc
  judge_last (raised e) = ground arith

  stops :
      (left attempt : ℕ) (last : Option Exception) (o : Outcome A)
      → verdict attempt ≡ some o
      → let r = retry_from s max_attempts extra (suc left) attempt last none in
        (r.outcome ≡ o) × (r.called ≡ attempt ∷ []) × (r.slept ≡ [])
  unfolding retry_from try_once
  stops left attempt last o e = ground arith

  goes_on :
      (left attempt : ℕ) (last : Option Exception)
      → verdict attempt ≡ none
      → (last' : Option Exception) × (let r =
            retry_from s max_attempts extra (suc left) attempt last none in
          let rest = retry_from s max_attempts extra left (attempt + 1) last' none in
          (r.outcome ≡ rest.outcome)
          × (r.called ≡ attempt ∷ rest.called)
          × (r.slept ≡ attempt ∷ rest.slept))
  unfolding retry_from try_once raised_by
  goes_on left attempt last e = (raised_by s (s.fn attempt), ground arith)

  IsDecided-here :
      (left attempt : ℕ) (last : Option Exception) (o : Outcome A)
      → attempt ≤ max_attempts
      → verdict attempt ≡ some o
      → IsDecided attempt attempt (retry_from s max_attempts extra (suc left) attempt last none)
  IsDecided-here left attempt last o fits e =
      let (out, call, slept) = stops left attempt last o e in
      let one : attempt + 1 - attempt ≡ 1 = omega arith in
      let nothing : attempt - attempt ≡ 0 = omega arith in
      record {
        earliest = omega arith;
        latest = fits;
        undecided = rw slept tt;
        decided = rw out e;
        calls = rw (call, one) refl;
        sleeps = rw (slept, nothing) refl;
      }

  IsDecided-later :
      (attempt k : ℕ) (r rest : Run A)
      → verdict attempt ≡ none
      → (r.outcome ≡ rest.outcome)
        × (r.called ≡ attempt ∷ rest.called)
        × (r.slept ≡ attempt ∷ rest.slept)
      → IsDecided (attempt + 1) k rest
      → IsDecided attempt k r
  IsDecided-later attempt k r rest e (out, call, slept) h =
      let more = h.earliest in
      let longer : k + 1 - attempt ≡ suc (k + 1 - (attempt + 1)) = omega arith in
      let longer' : k - attempt ≡ suc (k - (attempt + 1)) = omega arith in
      record {
        earliest = omega arith;
        latest = h.latest;
        undecided = rw slept (e, h.undecided);
        decided = rw out h.decided;
        calls = rw (call, longer, h.calls) refl;
        sleeps = rw (slept, longer', h.sleeps) refl;
      }

  from_IsDecided :
      (left attempt : ℕ) (last : Option Exception)
      → attempt + left ≡ max_attempts
      → (k : ℕ) × IsDecided attempt k (retry_from s max_attempts extra (suc left) attempt last none)
  from_IsDecided zero attempt last fits = elim (Option-cases (verdict attempt)) [
    | inr (o, e) ↦ (attempt, IsDecided-here 0 attempt last o (omega arith) e)
    | inl e ↦
        let final : attempt ≡ max_attempts = omega arith in
        absurd (judge_last (s.fn max_attempts) (rw final at e))
  ]
  from_IsDecided (suc left) attempt last fits = elim (Option-cases (verdict attempt)) [
    | inr (o, e) ↦ (attempt, IsDecided-here (suc left) attempt last o (omega arith) e)
    | inl e ↦
        let (last', same) = goes_on (suc left) attempt last e in
        let (k, h) = from_IsDecided left (attempt + 1) last' (omega arith) in
        (k, IsDecided-later attempt k _ _ e same h)
  ]

  -- With no breaker and at least one attempt allowed, some attempt `k` of `1 … max_attempts`
  -- decides: the attempts `1 … k` are made in that order and no other, each before `k` failed in a
  -- way that is worth a retry and is followed by a sleep, and the outcome is the verdict on `k`.
  pub retry-IsDecided :
      0 < max_attempts → (k : ℕ) × IsDecided 1 k (retry_async s max_attempts extra none)
  unfolding retry_async
  retry-IsDecided h =
      let e : max_attempts ≡ suc (max_attempts - 1) = omega arith in
      let (k, d) = from_IsDecided (max_attempts - 1) 1 none (omega arith) in
      (k, subst (λ m. IsDecided 1 k (retry_from s max_attempts extra m 1 none none)) (sym e) d)

  -- What holds with a breaker as well as without.
  pub record IsBounded (left : ℕ) (r : Run A) : Type ℓ where
    pub few_calls : length r.called ≤ left
    pub few_sleeps : length r.slept < left
    pub concluded : r.outcome ≢ assertion_failed

  judge-ne-assertion :
      (attempt : ℕ) (a : Attempt A) {o : Outcome A}
      → judge attempt max_attempts extra a ≡ some o
      → o ≢ assertion_failed
  unfolding judge
  judge-ne-assertion attempt (returned a) h = ground arith
  judge-ne-assertion attempt (raised e) h = ground arith

  judge_again :
      (attempt : ℕ) (a : Attempt A)
      → judge attempt max_attempts extra a ≡ none
      → (e : Exception) × (a ≡ raised e)
  unfolding judge
  judge_again attempt (returned a) h = cc
  judge_again attempt (raised e) h = (e, refl)

  stops_with :
      (left attempt : ℕ) (last : Option Exception) (cb : Option CircuitBreaker) (o : Outcome A)
      → judge attempt max_attempts extra (try_once s attempt cb).ended ≡ some o
      → let r = retry_from s max_attempts extra (suc left) attempt last cb in
        (r.outcome ≡ o) × (length r.called ≤ 1) × (r.slept ≡ [])
  unfolding retry_from
  stops_with left attempt last cb o e = ground arith

  goes_on_with :
      (left attempt : ℕ) (last : Option Exception) (cb : Option CircuitBreaker)
      → judge attempt max_attempts extra (try_once s attempt cb).ended ≡ none
      → (last' : Option Exception) × (cb' : Option CircuitBreaker) × (let r =
            retry_from s max_attempts extra (suc left) attempt last cb in
          let rest = retry_from s max_attempts extra left (attempt + 1) last' cb' in
          (r.outcome ≡ rest.outcome)
          × (length r.called ≤ suc (length rest.called))
          × (r.slept ≡ attempt ∷ rest.slept))
  unfolding retry_from raised_by
  goes_on_with left attempt last cb e = (
    raised_by s (try_once s attempt cb).ended,
    sleep s attempt (try_once s attempt cb).breaker,
    ground arith,
  )

  ends_at :
      (left attempt : ℕ) (last : Option Exception) (cb : Option CircuitBreaker) (o : Outcome A)
      → judge attempt max_attempts extra (try_once s attempt cb).ended ≡ some o
      → IsBounded (suc left) (retry_from s max_attempts extra (suc left) attempt last cb)
  ends_at left attempt last cb o e =
      let (out, calls, slept) = stops_with left attempt last cb o e in
      record {
        few_calls = omega arith;
        few_sleeps = rw slept (omega arith);
        concluded = rw out (judge-ne-assertion attempt _ e);
      }

  from_IsBounded :
      (left attempt : ℕ) (last : Option Exception) (cb : Option CircuitBreaker)
      → attempt + left ≡ max_attempts
      → IsBounded (suc left) (retry_from s max_attempts extra (suc left) attempt last cb)
  from_IsBounded zero attempt last cb fits =
      elim (Option-cases (judge attempt max_attempts extra (try_once s attempt cb).ended)) [
        | inr (o, e) ↦ ends_at 0 attempt last cb o e
        | inl e ↦
            let final : attempt ≡ max_attempts = omega arith in
            absurd (judge_last (try_once s max_attempts cb).ended (rw final at e))
      ]
  from_IsBounded (suc left) attempt last cb fits =
      elim (Option-cases (judge attempt max_attempts extra (try_once s attempt cb).ended)) [
        | inr (o, e) ↦ ends_at (suc left) attempt last cb o e
        | inl e ↦
            let (last', cb', same) = goes_on_with (suc left) attempt last cb e in
            let (out, calls, slept) = same in
            let ih = from_IsBounded left (attempt + 1) last' cb' (omega arith) in
            let few = ih.few_calls in
            let fewer = ih.few_sleeps in
            record {
              few_calls = omega arith;
              few_sleeps = rw slept (omega arith);
              concluded = rw out ih.concluded;
            }
      ]

  -- With or without a breaker, and whatever other tasks do to it, at least one attempt being
  -- allowed: `fn` is called at most `max_attempts` times, there are fewer sleeps than that, and the
  -- assertion behind the loop is never reached.
  pub retry-IsBounded :
      (cb : Option CircuitBreaker)
      → 0 < max_attempts
      → IsBounded max_attempts (retry_async s max_attempts extra cb)
  unfolding retry_async
  retry-IsBounded cb h =
      let e : max_attempts ≡ suc (max_attempts - 1) = omega arith in
      subst (λ m. IsBounded m (retry_from s max_attempts extra m 1 none cb)) (sym e)
        (from_IsBounded (max_attempts - 1) 1 none cb (omega arith))

  execute_refused :
      (b : CircuitBreaker)
      → admit (s.clock 1).0 b ≡ (b, false)
      → execute s 1 b ≡ record { ended = raised breaker_open_error; breaker = some b; ran = false }
  unfolding execute
  execute_refused b e = rw (e, execute) refl

  refused_once :
      (left : ℕ) (b : CircuitBreaker)
      → admit (s.clock 1).0 b ≡ (b, false)
      → retry_from s max_attempts extra (suc left) 1 none (some b) ≡ record {
        outcome = propagated breaker_open_error;
        breaker = some b;
        called = [];
        slept = [];
      }
  unfolding retry_from try_once judge isinstance
  refused_once left b e = rw (execute_refused b e, retry_from) (rw (execute_refused b e) refl)

  -- Through a breaker that is OPEN and cooling down, nothing is attempted: `fn` is not called, no
  -- time is slept, the breaker is as it was, and the refusal comes out.
  pub retry_refused :
      (b : CircuitBreaker)
      → 0 < max_attempts
      → IsCooling (s.clock 1).0 b
      → retry_async s max_attempts extra (some b) ≡ record {
        outcome = propagated breaker_open_error;
        breaker = some b;
        called = [];
        slept = [];
      }
  unfolding retry_async
  retry_refused b h cooling =
      let e : max_attempts ≡ suc (max_attempts - 1) = omega arith in
      subst
        (λ m. retry_from s max_attempts extra m 1 none (some b) ≡ record {
          outcome = propagated breaker_open_error;
          breaker = some b;
          called = [];
          slept = [];
        })
        (sym e) (refused_once (max_attempts - 1) b (admit_cooling (s.clock 1).0 b cooling))
