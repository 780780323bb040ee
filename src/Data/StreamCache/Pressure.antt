-- ===== src/Data/StreamCache/Pressure.antt =====
-- Backpressure in `StreamCache` (src/data/stream_cache.py): the queue, its count, and the pause.
use algo_engine.Prelude.{
  ℕ, String, ◌≡◌, refl, sym, Bool, false, not, Option, List, [], ◌∷◌, arith, Bool-cases,
  Option-cases, inl, inr, subst,
}
use algo_engine.Prelude.Eq.{Eq, string_eq, elem}
use algo_engine.Data.StreamCache.{
  MarketData, StreamCache, BackPressureConfig, CachePolicy, new_cache,
}
use algo_engine.Data.StreamCache.Store.{hash_for, is_duplicate}
use algo_engine.Data.StreamCache.Flow.{
  resume_streaming, enqueue, get_async, put_async, put_async_hashed, start, stop,
}
use algo_engine.Data.StreamCache.Flowing.{
  IsUsable, IsFlowing, enqueue-IsFlowing, get_async-IsFlowing,
}

-- The calls of producers and consumers. A producer that waited for the end of a pause may go on at any
-- time after it, also when the stream is paused again.
pub data FlowStep (S : Type 0) : Type 0 where
  produce : MarketData S → FlowStep S
  produce_on : MarketData S → FlowStep S
  consume : FlowStep S
  start_cache stop_cache : FlowStep S

module _ {S : Type 0} ⦃e : Eq S⦄ where
  pub flow : FlowStep S → StreamCache S → StreamCache S
  flow (produce x) c = (put_async x c).1
  flow (produce_on x) c = (enqueue x c).1
  flow consume c = (get_async c).1
  flow start_cache c = start c
  flow stop_cache c = stop c

  unfoldable pub flow_all : List (FlowStep S) → StreamCache S → StreamCache S
  unfolding flow
  flow_all [] c = c
  flow_all (s ∷ ss) c = flow_all ss (flow s c)

  is_duplicate-IsFlowing :
      (b : BackPressureConfig) (g : String) (c : StreamCache S)
      → IsFlowing b c
      → IsFlowing b (is_duplicate g c).1
  unfolding is_duplicate
  is_duplicate-IsFlowing b g c h = elim (Bool-cases (not c.enable_dedup)) [
    | inl off ↦ rw off h
    | inr on ↦ elim (Bool-cases (elem g c.seen_hashes)) [
      | inl seen ↦ rw on (rw seen h)
      | inr new ↦ rw on (
          rw new record {
            config = h.config;
            counted = h.counted;
            bounded = h.bounded;
            throttled = h.throttled;
            drainable = h.drainable;
          })
    ]
  ]

  put_async_going :
      (g : String) (x : MarketData S) (c : StreamCache S)
      → (is_duplicate g c).0 ≡ false
      → (is_duplicate g c).1.paused ≡ false
      → (put_async_hashed g x c).1 ≡ (enqueue x (is_duplicate g c).1).1
  unfolding put_async_hashed
  put_async_going g x c h k = ground arith

  put_async_hashed-IsFlowing :
      (b : BackPressureConfig) (g : String) (x : MarketData S) (c : StreamCache S)
      → IsUsable b
      → IsFlowing b c
      → IsFlowing b (put_async_hashed g x c).1
  unfolding put_async_hashed
  put_async_hashed-IsFlowing b g x c u h =
      let d = (is_duplicate g c).1 in
      let k = is_duplicate-IsFlowing b g c h in
      elim (Bool-cases (is_duplicate g c).0) [
        | inl seen ↦ rw seen record {
          config = k.config;
          counted = k.counted;
          bounded = k.bounded;
          throttled = k.throttled;
          drainable = k.drainable;
        }
        | inr new ↦ elim (Bool-cases d.paused) [
          | inl waiting ↦ rw new (rw waiting k)
          | inr going ↦
              subst (IsFlowing b) (sym (put_async_going g x c new going))
                (enqueue-IsFlowing b x d u k)
        ]
      ]

  put_async-IsFlowing :
      (b : BackPressureConfig) (x : MarketData S) (c : StreamCache S)
      → IsUsable b
      → IsFlowing b c
      → IsFlowing b (put_async x c).1
  unfolding put_async
  put_async-IsFlowing b x c u h = elim (Option-cases (hash_for x c)) [
    | inl raised ↦ rw (raised, put_async) h
    | inr (g, made) ↦ rw (made, put_async) (put_async_hashed-IsFlowing b g x c u h)
  ]

  flow-IsFlowing :
      (b : BackPressureConfig) (s : FlowStep S) (c : StreamCache S)
      → IsUsable b
      → IsFlowing b c
      → IsFlowing b (flow s c)
  unfolding flow start stop resume_streaming
  flow-IsFlowing b (produce x) c u h = put_async-IsFlowing b x c u h
  flow-IsFlowing b (produce_on x) c u h = enqueue-IsFlowing b x c u h
  flow-IsFlowing b consume c u h = get_async-IsFlowing b c c.async_queue u h refl
  flow-IsFlowing b start_cache c u h = record {
    config = h.config;
    counted = h.counted;
    bounded = h.bounded;
    throttled = h.throttled;
    drainable = h.drainable;
  }
  flow-IsFlowing b stop_cache c u h = record {
    config = h.config;
    counted = h.counted;
    bounded = h.bounded;
    throttled = refl;
    drainable = inl refl;
  }

  flow_all-IsFlowing :
      (b : BackPressureConfig) (ss : List (FlowStep S)) (c : StreamCache S)
      → IsUsable b
      → IsFlowing b c
      → IsFlowing b (flow_all ss c)
  unfolding flow_all
  flow_all-IsFlowing b [] c u h = h
  flow_all-IsFlowing b (s ∷ ss) c u h =
      flow_all-IsFlowing b ss (flow s c) u (flow-IsFlowing b s c u h)

  -- With both watermarks and the bound of the queue above zero, after any calls of producers and
  -- consumers: the count is that of the queue, which is never longer than its bound; the stream is
  -- paused exactly while it is throttled; and while it is paused the queue holds an item, so that
  -- consumers can go on.
  pub reachable-IsFlowing :
      (size : ℕ) (policy : CachePolicy) (ttl : Option ℕ) (dedup : Bool) (b : BackPressureConfig)
      (ss : List (FlowStep S))
      → IsUsable b
      → IsFlowing b (flow_all ss (new_cache size policy ttl dedup b))
  unfolding new_cache
  reachable-IsFlowing size policy ttl dedup b ss u = flow_all-IsFlowing b ss _ u record {
    config = refl;
    counted = refl;
    bounded = omega arith;
    throttled = refl;
    drainable = inl refl;
  }
