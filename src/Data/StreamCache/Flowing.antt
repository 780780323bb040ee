-- ===== src/Data/StreamCache/Flowing.antt =====
-- What every step of the queue of `StreamCache` keeps (src/data/stream_cache.py).
use algo_engine.Prelude.{
  ℕ, zero, suc, ◌+◌, ◌-◌, ◌*◌, ◌/◌, ◌≤◌, ◌<◌, ◌≡◌, refl, sym, ◌∙◌, true, false, not, ◌&&◌, List, [],
  ◌∷◌, ◌++◌, arith, if◌then◌else◌, ltb, leb, ◌==◌, length, length-append, Bool-cases, inl, inr, ◌⊎◌,
  ap, subst,
}
use native.Mathlib.Nat.{mul-pos}
use algo_engine.Prelude.Eq.{string_eq}
use algo_engine.Data.StreamCache.{MarketData, StreamCache, BackPressureConfig}
use algo_engine.Data.StreamCache.Flow.{
  throttle_streaming, resume_streaming, drop_first, drop_loop, drop_entries, check_backpressure,
  handle_queue_full, enqueue, get_async, queue_is_full,
}

-- Both watermarks and the bound are above zero.
pub record IsUsable (b : BackPressureConfig) : Type 0 where
  pub high : 0 < b.high_watermark
  pub low : 0 < b.low_watermark
  pub bound : 0 < b.max_queue_size

module _ {S : Type 0} where
  -- The count is that of the queue, which keeps its bound; the stream is paused exactly while it is
  -- throttled; and then there is an item to take.
  pub record IsFlowing (b : BackPressureConfig) (c : StreamCache S) : Type 0 where
    pub config : c.backpressure ≡ b
    pub counted : c.queue_size ≡ length c.async_queue
    pub bounded : length c.async_queue ≤ b.max_queue_size
    pub throttled : c.throttling ≡ c.paused
    pub drainable : (c.paused ≡ false) ⊎ (0 < length c.async_queue)

  -- What taking `n` items off the front leaves.
  abbrev Shortened : ℕ → StreamCache S → StreamCache S → Type 0
  Shortened n c d =
      (d.queue_size ≡ length d.async_queue)
      × (length d.async_queue ≡ length c.async_queue - n)
      × (d.throttling ≡ c.throttling)
      × (d.paused ≡ c.paused)
      × (d.backpressure ≡ c.backpressure)

  drop_loop_step :
      (n : ℕ) (c : StreamCache S) (x : MarketData S) (xs : List (MarketData S))
      → c.async_queue ≡ x ∷ xs
      → drop_loop (suc n) c ≡ drop_loop n (drop_first xs c)
  unfolding drop_loop
  drop_loop_step n c x xs q = ground arith

  drop_loop_lem :
      (n : ℕ) (c : StreamCache S) (q : List (MarketData S))
      → c.async_queue ≡ q
      → n ≤ length q
      → c.queue_size ≡ length c.async_queue
      → Shortened n c (drop_loop n c)
  unfolding drop_loop
  drop_loop_lem zero c q r h e = (e, omega arith, refl, refl, refl)
  drop_loop_lem (suc n) c [] r h e = absurd (omega arith)
  drop_loop_lem (suc n) c (x ∷ xs) r h e =
      let count : c.queue_size ≡ suc (length xs) = e ∙ ap length r in
      let (a, b, t, p, g) = drop_loop_lem n (drop_first xs c) xs refl (omega arith) (omega arith) in
      rw (drop_loop_step n c x xs r)
        (a, b ∙ (let l : length xs - n ≡ length c.async_queue - suc n = omega arith in l), t, p, g)

  drop_entries-IsFlowing :
      (b : BackPressureConfig) (c : StreamCache S)
      → c.queue_size ≡ length c.async_queue
      → 0 < length c.async_queue
      → length c.async_queue ≤ b.max_queue_size
      → c.throttling ≡ c.paused
      → c.backpressure ≡ b
      → IsFlowing b (drop_entries c)
  unfolding drop_entries
  drop_entries-IsFlowing b c e more fits t g =
      let (count, size, t', p', g') =
        drop_loop_lem (c.queue_size / 5) c c.async_queue refl (omega arith) e in
      record {
        config = g' ∙ g;
        counted = count;
        bounded = omega arith;
        throttled = t' ∙ t ∙ sym p';
        drainable = inr (omega arith);
      }

  check_backpressure-IsFlowing :
      (b : BackPressureConfig) (c : StreamCache S)
      → c.queue_size ≡ length c.async_queue
      → 0 < length c.async_queue
      → length c.async_queue ≤ b.max_queue_size
      → c.throttling ≡ c.paused
      → c.backpressure ≡ b
      → IsFlowing b (check_backpressure c)
  unfolding check_backpressure throttle_streaming
  check_backpressure-IsFlowing b c e more fits t g =
      let d = throttle_streaming c in
      let size = c.backpressure.max_queue_size in
      elim (Bool-cases
        (leb (c.backpressure.high_watermark * size) (c.queue_size * 100) && not c.throttling)) [
          | inl on ↦ elim (Bool-cases (leb (95 * size) (c.queue_size * 100))) [
            | inl critical ↦ rw on (rw critical (drop_entries-IsFlowing b d e more fits refl g))
            | inr fine ↦ rw on (
                rw fine record {
                  config = g;
                  counted = e;
                  bounded = fits;
                  throttled = refl;
                  drainable = inr more;
                })
          ]
          | inr off ↦ elim (Bool-cases (leb (95 * size) (c.queue_size * 100))) [
            | inl critical ↦ rw off (rw critical (drop_entries-IsFlowing b c e more fits t g))
            | inr fine ↦ rw off (
                rw fine record {
                  config = g;
                  counted = e;
                  bounded = fits;
                  throttled = t;
                  drainable = inr more;
                })
          ]
        ]

  handle_queue_full-IsFlowing :
      (b : BackPressureConfig) (x : MarketData S) (c : StreamCache S)
      → IsFlowing b c
      → IsFlowing b (handle_queue_full x c)
  unfolding handle_queue_full
  handle_queue_full-IsFlowing b x c h =
      let config = h.config in
      let counted = h.counted in
      let bounded = h.bounded in
      let throttled = h.throttled in
      let drainable = h.drainable in
      record {
        config = ground arith;
        counted = grind (arith, length-append);
        bounded = grind (arith, length-append);
        throttled = ground arith;
        drainable = grind (arith, length-append);
      }

  -- The item is put, and its count.
  abbrev added : MarketData S → StreamCache S → StreamCache S
  added x c = record c {
    async_queue = c.async_queue ++ (x ∷ []);
    queue_size = c.queue_size + 1;
    inserts = c.inserts + 1;
  }

  enqueue_full :
      (x : MarketData S) (c : StreamCache S)
      → queue_is_full c ≡ true
      → (enqueue x c).1 ≡ handle_queue_full x c
  unfolding enqueue
  enqueue_full x c h = rw h refl

  enqueue_room :
      (x : MarketData S) (c : StreamCache S)
      → queue_is_full c ≡ false
      → (c.backpressure.max_queue_size == 0) ≡ false
      → (enqueue x c).1 ≡ check_backpressure (added x c)
  unfolding enqueue
  enqueue_room x c h k = rw h (rw k refl)

  pub enqueue-IsFlowing :
      (b : BackPressureConfig) (x : MarketData S) (c : StreamCache S)
      → IsUsable b
      → IsFlowing b c
      → IsFlowing b (enqueue x c).1
  enqueue-IsFlowing b x c u h =
      let config = h.config in
      let counted = h.counted in
      let bounded = h.bounded in
      let bound = u.bound in
      let longer = length-append c.async_queue (x ∷ []) in
      let size : c.backpressure.max_queue_size ≡ b.max_queue_size =
        ap (λ (g : BackPressureConfig). g.max_queue_size) config in
      elim (Bool-cases (queue_is_full c)) [
        | inl full ↦
            subst (IsFlowing b) (sym (enqueue_full x c full)) (handle_queue_full-IsFlowing b x c h)
        | inr room ↦
            let positive : (c.backpressure.max_queue_size == 0) ≡ false = ground arith in
            let fits : length c.async_queue < c.backpressure.max_queue_size = ground arith in
            subst (IsFlowing b) (sym (enqueue_room x c room positive)) (
              check_backpressure-IsFlowing b (added x c) (omega arith) (omega arith) (omega arith)
                h.throttled config)
      ]

  get_async_some :
      (c : StreamCache S) (x : MarketData S) (xs : List (MarketData S))
      → c.async_queue ≡ x ∷ xs
      → let d = record c { async_queue = xs; queue_size = c.queue_size - 1 } in
        (get_async c).1 ≡ (
          if d.throttling
            && ltb
                (d.queue_size * 100)
                (d.backpressure.low_watermark * d.backpressure.max_queue_size)
          then resume_streaming d
          else d)
  unfolding get_async
  get_async_some c x xs q = rw (q, get_async) refl

  pub get_async-IsFlowing :
      (b : BackPressureConfig) (c : StreamCache S) (q : List (MarketData S))
      → IsUsable b
      → IsFlowing b c
      → c.async_queue ≡ q
      → IsFlowing b (get_async c).1
  unfolding get_async resume_streaming
  get_async-IsFlowing b c [] u h r = rw (r, get_async) h
  get_async-IsFlowing b c (x ∷ xs) u h r =
      let d = record c { async_queue = xs; queue_size = c.queue_size - 1 } in
      let low = d.backpressure.low_watermark * d.backpressure.max_queue_size in
      let count : d.queue_size ≡ length xs =
        let e = ap length r in let f = h.counted in omega arith in
      let fits : length xs ≤ b.max_queue_size =
        let e = ap length r in let f = h.bounded in omega arith in
      let throttled = h.throttled in
      let floor : 0 < low = rw h.config (mul-pos u.low u.bound) in
      subst (IsFlowing b) (sym (get_async_some c x xs r))
        (elim (Bool-cases (d.throttling && ltb (d.queue_size * 100) low)) [
          | inl on ↦ rw on record {
            config = h.config;
            counted = count;
            bounded = fits;
            throttled = refl;
            drainable = inl refl;
          }
          | inr off ↦ rw off record {
            config = h.config;
            counted = count;
            bounded = fits;
            throttled = throttled;
            drainable = ground arith;
          }
        ])
