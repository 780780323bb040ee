-- ===== src/Trading/OrderRouter/Choice.antt =====
-- Which brokers `route_order` names (src/trading/order_router.py).
use algo_engine.Prelude.{
  ℕ, ◌<◌, ◌≡◌, refl, sym, subst, Bool, true, not, ◌||◌, Option, none, some, List, [], ◌∷◌, String,
  arith, length, All, Bool-cases, inl, inr, ◌⊎◌, ◌==◌,
}
use algo_engine.Prelude.Eq.{string_eq, elem}
use algo_engine.Prelude.Dict.{Dict}
use algo_engine.Trading.Decimal.{Decimal}
use algo_engine.Trading.OrderRouter.{
  key_error, no_connected_brokers, no_brokers_registered, RoutingStrategy, cost_based,
  latency_based, fill_rate_based, split, fixed, round_robin, volume_weighted, Division, Order,
  Failure, RoutingResult, OrderRouter,
}
use algo_engine.Trading.OrderRouter.Route.{
  route_registered, succeed, sum_filled, Entry, names, get_available_brokers, route_split,
  route_volume_weighted, route_fixed, route_round_robin, apply_strategy, route_among, route_order,
  conclude, with_parts,
}
use algo_engine.Trading.OrderRouter.Available.{
  All-elem, is_up, AllUp, AllUpIn, available-AllUp, first_least-elem, at-elem, fixed_name-elem,
}

module _ {A D : Type 0} where
  -- A result names brokers that are all up, one at least.
  abbrev pub IsSent : OrderRouter A D → RoutingResult A D → Type 0
  IsSent r result =
      (ns : List String) × (result.broker_name ≡ some ns)
      × (0 < length ns)
      × All (λ n. is_up r.brokers r.metrics n ≡ true) ns
      × (result.error_message ≡ none)

  -- A result names no broker, and hands back the order whole with a reason.
  abbrev pub IsRefused : Order A D → RoutingResult A D → Type 0
  IsRefused order result =
      (f : Failure) × (result.broker_name ≡ none)
      × (result.error_message ≡ some f)
      × (result.orders ≡ order ∷ [])

  abbrev SentOr : OrderRouter A D → Failure ⊎ RoutingResult A D → Type 0
  SentOr r (inl f) = Unit
  SentOr r (inr result) = IsSent r result

module _ {A D : Type 0} ⦃d : Decimal D⦄ where
  with_parts-SentOr :
      (r : OrderRouter A D) (strategy : RoutingStrategy) (order : Order A D) (ns : List String)
      (parts : Option (List (Order A D)))
      → 0 < length ns
      → AllUp r.brokers r.metrics ns
      → SentOr r (with_parts strategy order ns parts)
  with_parts-SentOr r strategy order ns none m h = tt
  with_parts-SentOr r strategy order ns (some parts) m h = (ns, refl, m, h, refl)

  route_split-SentOr :
      (v : Division D) (ids : ℕ → String) (r : OrderRouter A D) (order : Order A D) (e : Entry D)
      (es : List (Entry D))
      → AllUp r.brokers r.metrics (names (e ∷ es))
      → SentOr r (route_split v ids r order e es)
  unfolding route_split
  route_split-SentOr v ids r order e es h =
      elim (Bool-cases
        ((length es == 0) || not (d.leb r.config.min_split_quantity order.quantity))) [
          | inl whole ↦ rw whole (e.0 ∷ [], refl, omega arith, (h.0, tt), refl)
          | inr parted ↦
              rw parted (with_parts-SentOr r split order (names (e ∷ es)) _ (omega arith) h)
        ]

  route_volume_weighted-SentOr :
      (v : Division D) (ids : ℕ → String) (r : OrderRouter A D) (order : Order A D) (e : Entry D)
      (es : List (Entry D))
      → AllUp r.brokers r.metrics (names (e ∷ es))
      → SentOr r (route_volume_weighted v ids r order e es)
  unfolding route_volume_weighted
  route_volume_weighted-SentOr v ids r order e es h = elim (Bool-cases (sum_filled (e ∷ es) == 0)) [
    | inl none_filled ↦ rw none_filled (route_split-SentOr v ids r order e es h)
    | inr filled ↦
        rw filled (with_parts-SentOr r volume_weighted order (names (e ∷ es)) _ (omega arith) h)
  ]

  -- One broker that stands among those that are up.
  one-IsSent :
      (r : OrderRouter A D) (e : Entry D) (es : List (Entry D)) (n : String)
      (strategy : RoutingStrategy) (order : Order A D)
      → AllUp r.brokers r.metrics (names (e ∷ es))
      → elem n (names (e ∷ es)) ≡ true
      → IsSent r (succeed strategy (order ∷ []) (n ∷ []))
  one-IsSent r e es n strategy order h k = (
    n ∷ [],
    refl,
    omega arith,
    (All-elem (λ i. is_up r.brokers r.metrics i ≡ true) n (names (e ∷ es)) k h, tt),
    refl,
  )

  apply_strategy-SentOr :
      (v : Division D) (ids : ℕ → String) (strategy : RoutingStrategy) (r : OrderRouter A D)
      (order : Order A D) (e : Entry D) (es : List (Entry D))
      → AllUp r.brokers r.metrics (names (e ∷ es))
      → SentOr r (apply_strategy v ids strategy r order e es).0
  unfolding apply_strategy route_fixed route_round_robin
  apply_strategy-SentOr v ids cost_based r order e es h =
      one-IsSent r e es _ cost_based order h (first_least-elem _ e es)
  apply_strategy-SentOr v ids latency_based r order e es h =
      one-IsSent r e es _ latency_based order h (first_least-elem _ e es)
  apply_strategy-SentOr v ids fill_rate_based r order e es h =
      one-IsSent r e es _ fill_rate_based order h (first_least-elem _ e es)
  apply_strategy-SentOr v ids split r order e es h = route_split-SentOr v ids r order e es h
  apply_strategy-SentOr v ids fixed r order e es h =
      one-IsSent r e es _ fixed order h (fixed_name-elem r.config.fixed_broker_name e es)
  apply_strategy-SentOr v ids round_robin r order e es h =
      one-IsSent r e es _ round_robin order h (at-elem _ e es)
  apply_strategy-SentOr v ids volume_weighted r order e es h =
      route_volume_weighted-SentOr v ids r order e es h

  conclude_lem :
      (r : OrderRouter A D) (strategy : RoutingStrategy) (order : Order A D)
      (o : (Failure ⊎ RoutingResult A D) × OrderRouter A D)
      → SentOr r (o.0)
      → IsSent r (conclude strategy order o).0 ⊎ IsRefused order (conclude strategy order o).0
  conclude_lem r strategy order (inl f, s) h = inr (f, refl, refl, refl)
  conclude_lem r strategy order (inr result, s) h = inl h

  route_among_lem :
      (v : Division D) (ids : ℕ → String) (strategy : RoutingStrategy) (r : OrderRouter A D)
      (order : Order A D) (o : Option (List (Entry D)))
      → AllUpIn r.brokers r.metrics o
      → let result = (route_among v ids strategy r order o).0 in
        IsSent r result ⊎ IsRefused order result
  route_among_lem v ids strategy r order none h = inr (key_error, refl, refl, refl)
  route_among_lem v ids strategy r order (some []) h = inr (no_connected_brokers, refl, refl, refl)
  route_among_lem v ids strategy r order (some (e ∷ es)) h =
      conclude_lem r strategy order (apply_strategy v ids strategy r order e es)
        (apply_strategy-SentOr v ids strategy r order e es h)

  route_registered_lem :
      (v : Division D) (ids : ℕ → String) (strategy : RoutingStrategy) (r : OrderRouter A D)
      (order : Order A D) (bs : Dict String Bool)
      → r.brokers ≡ bs
      → let result = (route_registered v ids strategy r order bs).0 in
        IsSent r result ⊎ IsRefused order result
  route_registered_lem v ids strategy r order [] q = inr (no_brokers_registered, refl, refl, refl)
  route_registered_lem v ids strategy r order (b ∷ bs) q =
      let o = get_available_brokers (b ∷ bs) r.metrics in
      route_among_lem v ids strategy r order o
        (subst (λ l. AllUpIn l r.metrics o) (sym q) (available-AllUp (b ∷ bs) r.metrics))

  -- Whatever the strategy, the rules, the metrics and the configuration: a result of route_order
  -- either reports no error and names at least one broker, each of them one that is marked as
  -- connected or answers that it is; or it has a reason, names no broker, and hands back exactly the
  -- order.
  pub route_order_lem :
      (v : Division D) (ids : ℕ → String) (ctx : Dict String (Option String))
      (wanted : Option RoutingStrategy) (order : Order A D) (r : OrderRouter A D)
      → let result = (route_order v ids ctx wanted order r).0 in
        IsSent r result ⊎ IsRefused order result
  unfolding route_order
  route_order_lem v ids ctx wanted order r = route_registered_lem v ids _ r order r.brokers refl
