-- ===== src/Data/Tests.antt =====
-- The theorems about src/data at inputs that meet their hypotheses.
use algo_engine.Prelude.{ℕ, ◌≡◌, refl, true, false, none, some, List, [], ◌∷◌, String, arith}
use algo_engine.Prelude.Eq.{string_eq}
use algo_engine.Data.StreamCache.{lru, MarketData, BackPressureConfig, new_cache}
use algo_engine.Data.StreamCache.Flowing.{IsFlowing}
use algo_engine.Data.StreamCache.Pressure.{
  FlowStep, produce, produce_on, consume, start_cache, stop_cache, flow_all, reachable-IsFlowing,
}
use algo_engine.Data.StreamCache.Flow.{put_async}
use algo_engine.Data.StreamCache.Bounds.{IsStored}
use algo_engine.Data.StreamCache.Removals.{
  Call, put_item, get_items, get_latest_item, clear_items_of, clean_up, call_all,
  reachable-IsStored,
}

abbrev config : BackPressureConfig
config = record { max_queue_size = 4; high_watermark = 80; low_watermark = 50; drops_oldest = true }

abbrev item : String → ℕ → MarketData String
item s t = record { symbol = s; timestamp = t; detail = "t"; dedup_hash = some "h" }

abbrev steps : List (FlowStep String)
steps =
    start_cache
    ∷ produce (item "A" 1)
    ∷ produce (item "A" 2)
    ∷ produce (item "B" 3)
    ∷ produce (item "B" 4)
    ∷ produce (item "B" 5)
    ∷ consume
    ∷ produce_on (item "B" 5)
    ∷ stop_cache
    ∷ []

reachable-IsFlowing_example : IsFlowing config (flow_all steps (new_cache 10 lru none false config))
reachable-IsFlowing_example =
    reachable-IsFlowing 10 lru none false config steps
      record { high = omega arith; low = omega arith; bound = omega arith }

-- After four items the stream is paused.
flow_pauses :
    (flow_all
      (produce (item "A" 1)
        ∷ produce (item "A" 2)
        ∷ produce (item "B" 3)
        ∷ produce (item "B" 4)
        ∷ [])
      (new_cache 10 lru none false config)).paused
    ≡ true
unfolding flow_all new_cache put_async
flow_pauses = refl

abbrev ask : List (Call String)
ask =
    put_item 1 (item "A" 1)
    ∷ put_item 2 (item "A" 2)
    ∷ get_items 3 "A" (some 2)
    ∷ put_item 4 (item "B" 3)
    ∷ get_latest_item 5 "B"
    ∷ clear_items_of "A"
    ∷ clean_up 9
    ∷ []

reachable-IsStored_example :
    IsStored 2 (call_all (λ s. s) ask (new_cache 2 lru (some 60) false config))
reachable-IsStored_example =
    reachable-IsStored 2 lru (some 60) false config (λ s. s) ask (omega arith)
