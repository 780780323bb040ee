-- ===== src/Resilience/Breaker/Behaviour.antt =====
-- What the circuit breaker of src/utils/error_handler.py promises to its callers: failing fast,
-- tripping, probing and recovering.
use algo_engine.Prelude.{
  ℕ, zero, suc, ◌+◌, ◌≤◌, ◌<◌, ◌≡◌, ◌↔◌, refl, Bool, true, false, none, some, arith, Option-cases,
  inl, inr, ◌&&◌, List, [], ◌∷◌, ap, length, ap, length,
}
use algo_engine.Resilience.Breaker.{
  CircuitBreaker, closed, opened, half_open, admit, record_success, record_failure, settle,
}

-- OPEN since a known time, and `now` is within the cooldown.
pub record IsCooling (now : ℕ) (b : CircuitBreaker) : Type 0 where
  pub is_open : b.stats.state ≡ opened
  pub since : ℕ
  pub opened_since : b.stats.opened_at ≡ some since
  pub too_early : now < since + b.config.cooldown

pub admit_cooling : (now : ℕ) (b : CircuitBreaker) → IsCooling now b → admit now b ≡ (b, false)
unfolding admit
admit_cooling now b h =
    let o = h.is_open in let s = h.opened_since in let early = h.too_early in ground arith

refused-IsCooling : (now : ℕ) (b : CircuitBreaker) → (admit now b).1 ≡ false → IsCooling now b
unfolding admit
refused-IsCooling now b h = elim (Option-cases (b.stats.opened_at)) [
  | inl e ↦ cc (let wrong : true ≡ false = ground arith in wrong)
  | inr (t, e) ↦ record {
    is_open = ground arith;
    since = t;
    opened_since = e;
    too_early = ground arith;
  }
]

-- A call is refused exactly while the breaker is OPEN and cooling down, and then the breaker is left
-- as it was.
pub admit_lem :
    (now : ℕ) (b : CircuitBreaker)
    → (((admit now b).1 ≡ false) ↔ IsCooling now b) × ((admit now b ≡ (b, false)) ↔ IsCooling now b)
admit_lem now b =
    let verdict = λ (r : CircuitBreaker × Bool). r.1 in
    (
      (refused-IsCooling now b, λ c. ap verdict (admit_cooling now b c)),
      (λ e. refused-IsCooling now b (ap verdict e), admit_cooling now b),
    )

-- When the cooldown of an OPEN breaker is over, the next call is let through as a probe: the breaker
-- is in HALF_OPEN with its counts cleared, and one call more is in flight.
pub admit_probe :
    (now t : ℕ) (b : CircuitBreaker)
    → b.stats.state ≡ opened
    → b.stats.opened_at ≡ some t
    → t + b.config.cooldown ≤ now
    → let (c, through) = admit now b in
      (through ≡ true)
      × (c.stats.state ≡ half_open)
      × (c.stats.failure_count ≡ 0)
      × (c.stats.success_count ≡ 0)
      × (c.stats.half_open_inflight ≡ b.stats.half_open_inflight + 1)
unfolding admit
admit_probe now t b s o h = ground arith

-- `n` failures in a row, each with the two clock readings of its number.
pub fail_times : (ℕ → ℕ × ℕ) → ℕ → CircuitBreaker → CircuitBreaker
fail_times clock zero b = b
fail_times clock (suc n) b =
    let c = fail_times clock n b in record_failure (clock n).0 (clock n).1 c

fail_times_closed :
    (clock : ℕ → ℕ × ℕ) (n : ℕ) (b : CircuitBreaker)
    → b.stats.state ≡ closed
    → b.stats.failure_count + n < b.config.failure_threshold
    → let c = fail_times clock n b in
      (c.stats.state ≡ closed)
      × (c.stats.failure_count ≡ b.stats.failure_count + n)
      × (c.stats.total_trips ≡ b.stats.total_trips)
      × (c.config ≡ b.config)
unfolding fail_times record_failure
fail_times_closed clock zero b s h = (s, omega arith, refl, refl)
fail_times_closed clock (suc n) b s h = ground (arith, fail_times_closed clock n b s)

-- A CLOSED breaker that has counted no failure trips at the failure that reaches the threshold, and
-- at none before it: after fewer failures it is CLOSED and has not tripped, and after as many as
-- the threshold says it is OPEN from the time of the last, with one trip more.
pub fail_times_trips :
    (clock : ℕ → ℕ × ℕ) (n k : ℕ) (b : CircuitBreaker)
    → b.stats.state ≡ closed
    → b.stats.failure_count ≡ 0
    → b.config.failure_threshold ≡ suc n
    → k ≤ n
    → (((fail_times clock k b).stats.state ≡ closed)
        × ((fail_times clock k b).stats.total_trips ≡ b.stats.total_trips))
      × (((fail_times clock (suc n) b).stats.state ≡ opened)
          × ((fail_times clock (suc n) b).stats.opened_at ≡ some (clock n).1)
          × ((fail_times clock (suc n) b).stats.total_trips ≡ b.stats.total_trips + 1))
unfolding fail_times record_failure
fail_times_trips clock n k b s z t h =
    let (s', _, trips, _) = fail_times_closed clock k b s (omega arith) in
    ((s', trips), ground (arith, fail_times_closed clock n b s))

-- `n` successes in a row.
pub succeed_times : (ℕ → ℕ) → ℕ → CircuitBreaker → CircuitBreaker
succeed_times clock zero b = b
succeed_times clock (suc n) b = record_success (clock n) (succeed_times clock n b)

succeed_times_half_open :
    (clock : ℕ → ℕ) (n : ℕ) (b : CircuitBreaker)
    → b.stats.state ≡ half_open
    → b.stats.success_count + n < b.config.reset_success_threshold
    → let c = succeed_times clock n b in
      (c.stats.state ≡ half_open)
      × (c.stats.success_count ≡ b.stats.success_count + n)
      × (c.config ≡ b.config)
unfolding succeed_times record_success
succeed_times_half_open clock zero b s h = (s, omega arith, refl)
succeed_times_half_open clock (suc n) b s h = ground (arith, succeed_times_half_open clock n b s)

-- A breaker in HALF_OPEN with no success counted closes at the success that reaches the threshold
-- and at none before it, with the failure count and the time of opening cleared; and any failure in
-- HALF_OPEN, however many successes came before it, opens it again.
pub succeed_times_recovers :
    (clock : ℕ → ℕ) (n k now later : ℕ) (b : CircuitBreaker)
    → b.stats.state ≡ half_open
    → b.stats.success_count ≡ 0
    → b.config.reset_success_threshold ≡ suc n
    → k ≤ n
    → ((succeed_times clock k b).stats.state ≡ half_open)
      × (let c = succeed_times clock (suc n) b in
          (c.stats.state ≡ closed) × (c.stats.failure_count ≡ 0) × (c.stats.opened_at ≡ none))
      × (let d = record_failure now later (succeed_times clock k b) in
          (d.stats.state ≡ opened) × (d.stats.opened_at ≡ some later))
unfolding succeed_times record_success record_failure
succeed_times_recovers clock n k now later b s z t h = (
  (succeed_times_half_open clock k b s (omega arith)).0,
  ground (arith, succeed_times_half_open clock n b s),
  ground (arith, succeed_times_half_open clock k b s),
)

-- Calls that begin at the times of the list, none of them ending; whether all were let through.
pub admit_all : List ℕ → CircuitBreaker → CircuitBreaker × Bool
admit_all [] b = (b, true)
admit_all (now ∷ times) b =
    let (c, here) = admit now b in let (d, rest) = admit_all times c in (d, here && rest)

-- In HALF_OPEN every call is let through, however many are in flight: `half_open_max_calls` is not
-- consulted, so the calls in flight are as many as have begun.
pub admit_all_half_open :
    (times : List ℕ) (b : CircuitBreaker)
    → b.stats.state ≡ half_open
    → let (c, through) = admit_all times b in
      (through ≡ true)
      × (c.stats.state ≡ half_open)
      × (c.stats.half_open_inflight ≡ b.stats.half_open_inflight + length times)
unfolding admit_all admit
admit_all_half_open [] b s = (refl, s, omega arith)
admit_all_half_open (now ∷ times) b s = ground (arith, admit_all_half_open times (admit now b).0)

-- A probe that fails is not taken off the calls in flight, since the breaker has left HALF_OPEN
-- before the `finally`: from HALF_OPEN with more than one success to go, a call that begins and
-- fails leaves the count one higher, and one that begins and succeeds leaves it as it was.
pub settle_inflight :
    (begin now later : ℕ) (b : CircuitBreaker)
    → b.stats.state ≡ half_open
    → b.stats.success_count + 1 < b.config.reset_success_threshold
    → let c = (admit begin b).0 in
      ((settle false now later c).stats.half_open_inflight ≡ b.stats.half_open_inflight + 1)
      × ((settle true now later c).stats.half_open_inflight ≡ b.stats.half_open_inflight)
unfolding admit settle
settle_inflight begin now later b s h = (ground arith, ground arith)
