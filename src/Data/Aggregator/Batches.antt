-- ===== src/Data/Aggregator/Batches.antt =====
-- The ticks that come out of src/data/feed.py in bars.
use algo_engine.Prelude.{
  ℕ, Option, none, some, map, ◌≡◌, refl, sym, ap, ◌∙◌, List, [], ◌∷◌, ◌++◌, if◌then◌else◌,
  Bool-cases, Option-cases, inl, inr, append_assoc, append-nil,
}
use algo_engine.Prelude.Eq.{Eq, ◌=?◌}
use algo_engine.Prelude.Dict.{get_or-insert, insert}
use algo_engine.Trading.Market.{Tick}
use algo_engine.Data.Aggregator.{
  Resolution, DataAggregator, Batch, new_aggregator, buffer_of, put_buffer, ends_period, add_tick,
  has_ticks, flush_each, flush,
}

-- A call of the aggregator; a flush has the time that it is made at.
pub data Call (S D : Type 0) : Type 0 where
  adds : Tick S D → Call S D
  flushes : ℕ → Option S → Call S D

module _ {S D : Type 0} ⦃eq : Eq S⦄ where
  -- Calls one after another, with all batches that they return.
  unfoldable pub run : List (Call S D) → DataAggregator S D → List (Batch S D) × DataAggregator S D
  unfolding add_tick flush
  run [] a = ([], a)
  run (adds t ∷ cs) a =
      let (bs, a') = add_tick t a in let (bs', a'') = run cs a' in (bs ++ bs', a'')
  run (flushes now s ∷ cs) a =
      let (bs, a') = flush now s a in let (bs', a'') = run cs a' in (bs ++ bs', a'')

  -- The ticks of the calls, in order.
  abbrev pub added : List (Call S D) → List (Tick S D)
  added [] = []
  added (adds t ∷ cs) = t ∷ added cs
  added (flushes now s ∷ cs) = added cs

  -- The ticks of a symbol, in order.
  abbrev pub ticks_of : S → List (Tick S D) → List (Tick S D)
  ticks_of s [] = []
  ticks_of s (t ∷ ts) = let rest = ticks_of s ts in if t.symbol =? s then t ∷ rest else rest

  -- The ticks of the batches of a symbol, in order.
  abbrev pub batched : S → List (Batch S D) → List (Tick S D)
  batched s [] = []
  batched s (b ∷ bs) = let rest = batched s bs in if b.symbol =? s then b.ticks ++ rest else rest

  batched-append :
      (s : S) (bs cs : List (Batch S D)) → batched s (bs ++ cs) ≡ batched s bs ++ batched s cs
  batched-append s [] cs = refl
  batched-append s (b ∷ bs) cs = elim (Bool-cases (b.symbol =? s)) [
    | inl e ↦
        rw e (ap (λ x. b.ticks ++ x) (batched-append s bs cs) ∙ sym (append_assoc b.ticks _ _))
    | inr e ↦ rw e (batched-append s bs cs)
  ]

  put_buffer-buffer_of :
      (s : S) (t : Tick S D) (ts : List (Tick S D)) (a : DataAggregator S D)
      → buffer_of s (put_buffer t ts a) ≡ (if t.symbol =? s then ts else buffer_of s a)
  put_buffer-buffer_of s t ts a = get_or-insert t.symbol s ts [] a.buffers

  add_tick-batched :
      (s : S) (t : Tick S D) (a : DataAggregator S D)
      → let (bs, a') = add_tick t a in
        batched s bs ++ buffer_of s a' ≡ buffer_of s a ++ ticks_of s (t ∷ [])
  unfolding add_tick
  add_tick-batched s t a = elim (Bool-cases (t.symbol =? s)) [
    | inl e ↦
        let same : buffer_of t.symbol a ≡ buffer_of s a =
          ap (λ x. buffer_of x a) ((eq.beq_iff t.symbol s).0 e) in
        elim (Option-cases (ends_period t a)) [
          | inl stays ↦
              rw (stays, add_tick)
                (put_buffer-buffer_of s t (buffer_of t.symbol a ++ (t ∷ [])) a
                  ∙ (rw e (ap (λ x. x ++ (t ∷ [])) same)))
          | inr (p, ends) ↦
              rw (ends, e, add_tick)
                (ap (λ x. (buffer_of t.symbol a ++ []) ++ x) (put_buffer-buffer_of s t (t ∷ []) a)
                  ∙ (rw (e, same, append-nil (buffer_of s a)) refl))
        ]
    | inr e ↦ elim (Option-cases (ends_period t a)) [
      | inl stays ↦
          rw (stays, e, add_tick)
            (put_buffer-buffer_of s t (buffer_of t.symbol a ++ (t ∷ [])) a
              ∙ (rw e (sym (append-nil (buffer_of s a)))))
      | inr (p, ends) ↦
          rw (ends, e, add_tick)
            (put_buffer-buffer_of s t (t ∷ []) a ∙ (rw e (sym (append-nil (buffer_of s a)))))
    ]
  ]

  ticks_of-cons :
      (s : S) (t : Tick S D) (ts : List (Tick S D))
      → ticks_of s (t ∷ ts) ≡ ticks_of s (t ∷ []) ++ ticks_of s ts
  ticks_of-cons s t ts = elim (Bool-cases (t.symbol =? s)) [ inl e ↦ rw e refl | inr e ↦ rw e refl ]

  flush_each-batched :
      (s : S) (now : ℕ) (ss : List S) (a : DataAggregator S D)
      → let (bs, a') = flush_each now ss a in batched s bs ++ buffer_of s a' ≡ buffer_of s a
  unfolding flush_each
  flush_each-batched s now [] a = refl
  flush_each-batched s now (x ∷ ss) a =
      let emptied : DataAggregator S D = record a { buffers = insert x [] a.buffers } in
      let (bs, a') = flush_each now ss emptied in
      let left : buffer_of s emptied ≡ (if x =? s then [] else buffer_of s a) =
        get_or-insert x s [] [] a.buffers in
      let ih = flush_each-batched s now ss emptied in
      elim (Bool-cases (has_ticks (buffer_of x a))) [
        | inr idle ↦ rw (idle, flush_each) (flush_each-batched s now ss a)
        | inl some_ticks ↦ elim (Bool-cases (x =? s)) [
          | inr e ↦ rw (some_ticks, e, flush_each) (ih ∙ left ∙ (rw e refl))
          | inl e ↦
              let same : buffer_of x a ≡ buffer_of s a =
                ap (λ y. buffer_of y a) ((eq.beq_iff x s).0 e) in
              rw (some_ticks, e, flush_each)
                (append_assoc (buffer_of x a) (batched s bs) (buffer_of s a')
                  ∙ ap (λ ts. buffer_of x a ++ ts) (ih ∙ left)
                  ∙ (rw (e, same, append-nil (buffer_of s a)) refl))
        ]
      ]

  flush-batched :
      (s : S) (now : ℕ) (x : Option S) (a : DataAggregator S D)
      → let (bs, a') = flush now x a in batched s bs ++ buffer_of s a' ≡ buffer_of s a
  unfolding flush
  flush-batched s now none a = flush_each-batched s now (map (λ p. p.0) a.buffers) a
  flush-batched s now (some x) a = flush_each-batched s now (x ∷ []) a

  -- Two calls one after another, the second from `held'` on.
  batched-later :
      (s : S) (bs bs' : List (Batch S D)) (held' held'' more : List (Tick S D))
      → batched s bs' ++ held'' ≡ held' ++ more
      → batched s (bs ++ bs') ++ held'' ≡ (batched s bs ++ held') ++ more
  batched-later s bs bs' held' held'' more h =
      ap (λ x. x ++ held'') (batched-append s bs bs')
      ∙ append_assoc (batched s bs) (batched s bs') held''
      ∙ ap (λ x. batched s bs ++ x) h
      ∙ sym (append_assoc (batched s bs) held' more)

  run-batched :
      (s : S) (cs : List (Call S D)) (a : DataAggregator S D)
      → let (bs, a') = run cs a in
        batched s bs ++ buffer_of s a' ≡ buffer_of s a ++ ticks_of s (added cs)
  unfolding run
  run-batched s [] a = sym (append-nil (buffer_of s a))
  run-batched s (adds t ∷ cs) a =
      let (bs, a') = add_tick t a in
      let (bs', a'') = run cs a' in
      batched-later s bs bs' (buffer_of s a') (buffer_of s a'') (ticks_of s (added cs))
        (run-batched s cs a')
      ∙ ap (λ x. x ++ ticks_of s (added cs)) (add_tick-batched s t a)
      ∙ append_assoc (buffer_of s a) (ticks_of s (t ∷ [])) (ticks_of s (added cs))
      ∙ ap (λ x. buffer_of s a ++ x) (sym (ticks_of-cons s t (added cs)))
  run-batched s (flushes now x ∷ cs) a =
      let (bs, a') = flush now x a in
      let (bs', a'') = run cs a' in
      batched-later s bs bs' (buffer_of s a') (buffer_of s a'') (ticks_of s (added cs))
        (run-batched s cs a')
      ∙ ap (λ y. y ++ ticks_of s (added cs)) (flush-batched s now x a)

  -- Whatever ticks are added to a new aggregator and whatever is flushed in between: the ticks of a
  -- symbol are, in order and each once, the ticks of the bars that are returned for the symbol and then
  -- those that are still held.
  pub run-all :
      (r : Resolution) (s : S) (cs : List (Call S D))
      → let (bs, a) = run cs (new_aggregator r) in
        batched s bs ++ buffer_of s a ≡ ticks_of s (added cs)
  unfolding new_aggregator
  run-all r s cs = run-batched s cs (new_aggregator r)
