-- ===== src/Data/StreamCache/Flow.antt =====
-- The queue of `StreamCache` with its backpressure (src/data/stream_cache.py).
use algo_engine.Prelude.{
  ℕ, String, Option, none, some, zero, suc, ◌+◌, ◌-◌, ◌*◌, ◌/◌, Bool, true, false, not, ◌&&◌, List,
  [], ◌∷◌, ◌++◌, if◌then◌else◌, ltb, leb, ◌==◌, length,
}
use algo_engine.Prelude.Eq.{Eq}
use algo_engine.Data.StreamCache.{MarketData, StreamCache}
use algo_engine.Data.StreamCache.Store.{hash_for, is_duplicate}

-- How `put_async` ends: `waits` while the stream is paused, and `division_error` where the queue has
-- no bound, since the filling is a quotient by it, and `attribute_error` where making the hash raises.
pub data PutResult : Type 0 where
  stored duplicate dropped waits division_error attribute_error : PutResult

module _ {S : Type 0} where
  -- `_throttle_streaming` and `_resume_streaming`
  unfoldable pub throttle_streaming : StreamCache S → StreamCache S
  throttle_streaming c = record c { throttling = true; paused = true }

  unfoldable pub resume_streaming : StreamCache S → StreamCache S
  resume_streaming c = record c { throttling = false; paused = false }

  -- The first item goes, and `xs` are left.
  abbrev pub drop_first : List (MarketData S) → StreamCache S → StreamCache S
  drop_first xs c = record c {
    async_queue = xs;
    queue_size = c.queue_size - 1;
    dropped_count = c.dropped_count + 1;
  }

  unfoldable pub drop_loop : ℕ → StreamCache S → StreamCache S
  drop_loop zero c = c
  drop_loop (suc n) c = elim (c.async_queue) [ [] ↦ c | x ∷ xs ↦ drop_loop n (drop_first xs c) ]

  -- `_drop_entries`: 20 percent, rounded down.
  unfoldable pub drop_entries : StreamCache S → StreamCache S
  unfolding drop_loop
  drop_entries c = drop_loop (c.queue_size / 5) c

  -- `_check_backpressure`, where the queue has a bound.
  unfoldable pub check_backpressure : StreamCache S → StreamCache S
  unfolding throttle_streaming drop_entries
  check_backpressure c =
      let size = c.backpressure.max_queue_size in
      let d =
        if leb (c.backpressure.high_watermark * size) (c.queue_size * 100) && not c.throttling
        then throttle_streaming c
        else c in
      if leb (95 * size) (d.queue_size * 100) then drop_entries d else d

  -- `_handle_queue_full`; the policies "newest" and "random" both drop the new item.
  unfoldable pub handle_queue_full : MarketData S → StreamCache S → StreamCache S
  handle_queue_full x c =
      let d = record c { dropped_count = c.dropped_count + 1 } in
      if d.backpressure.drops_oldest
      then elim (d.async_queue) [ [] ↦ d | y ∷ ys ↦ record d { async_queue = ys ++ (x ∷ []) } ]
      else d

  -- `Queue.put_nowait` would raise; a bound of 0 is none.
  abbrev pub queue_is_full : StreamCache S → Bool
  queue_is_full c =
      let size = c.backpressure.max_queue_size in not (size == 0) && leb size (length c.async_queue)

  -- `put_async` behind the wait.
  unfoldable pub enqueue : MarketData S → StreamCache S → PutResult × StreamCache S
  unfolding check_backpressure handle_queue_full
  enqueue x c =
      if queue_is_full c
      then (dropped, handle_queue_full x c)
      else (let d = record c {
        async_queue = c.async_queue ++ (x ∷ []);
        queue_size = c.queue_size + 1;
        inserts = c.inserts + 1;
      } in
          if d.backpressure.max_queue_size == 0
          then (division_error, d)
          else (stored, check_backpressure d))

  -- `get_async` on a queue that is not empty.
  unfoldable pub get_async : StreamCache S → Option (MarketData S) × StreamCache S
  unfolding resume_streaming
  get_async c = elim (c.async_queue) [
    | [] ↦ (none, c)
    | x ∷ xs ↦
        let d = record c { async_queue = xs; queue_size = c.queue_size - 1 } in
        let low = d.backpressure.low_watermark * d.backpressure.max_queue_size in
        (some x, if d.throttling && ltb (d.queue_size * 100) low then resume_streaming d else d)
  ]

  -- `start` and `stop`
  unfoldable pub start : StreamCache S → StreamCache S
  start c = record c { running = true }

  unfoldable pub stop : StreamCache S → StreamCache S
  unfolding resume_streaming
  stop c = resume_streaming (record c { running = false })

module _ {S : Type 0} ⦃e : Eq S⦄ where
  -- `put_async` with the hash; an item that has to wait has been counted as seen already.
  unfoldable pub put_async_hashed :
      String → MarketData S → StreamCache S → PutResult × StreamCache S
  unfolding is_duplicate enqueue
  put_async_hashed g x c =
      let (seen, d) = is_duplicate g c in
      if seen
      then (duplicate, record d { dedup_hits = d.dedup_hits + 1 })
      else if d.paused
      then (waits, d)
      else enqueue x d

  -- `put_async`
  unfoldable pub put_async : MarketData S → StreamCache S → PutResult × StreamCache S
  unfolding put_async_hashed
  put_async x c = elim (hash_for x c) [
    | none ↦ (attribute_error, c)
    | some g ↦ put_async_hashed g x c
  ]
