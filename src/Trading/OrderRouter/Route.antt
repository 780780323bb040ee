-- ===== src/Trading/OrderRouter/Route.antt =====
-- The strategies of `OrderRouter` and `route_order` (src/trading/order_router.py).
use algo_engine.Prelude.{
  ℕ, zero, suc, ◌+◌, ◌%◌, Bool, false, not, ◌||◌, Option, none, some, List, [], ◌∷◌, ◌++◌, String,
  if◌then◌else◌, ◌==◌, length, map, min, ◌⊎◌, inl, inr,
}
use algo_engine.Prelude.Eq.{string_eq, elem}
use algo_engine.Prelude.Dict.{Dict, lookup}
use algo_engine.Trading.Decimal.{Decimal}
use algo_engine.Trading.OrderRouter.{
  RoutingStrategy, cost_based, latency_based, fill_rate_based, split, fixed, round_robin,
  volume_weighted, BrokerMetrics, Division, Order, Failure, no_brokers_registered,
  no_connected_brokers, value_error, key_error, RoutingResult, OrderRouter, strategy_for,
}
use algo_engine.Trading.OrderRouter.Split.{split_order}

-- A broker's name with its metrics.
abbrev pub Entry : Type 0 → Type 0
Entry D = String × BrokerMetrics D

module _ {D : Type 0} where
  abbrev pub names : List (Entry D) → List String
  names es = map (λ e. e.0) es

  abbrev pub with_entry : Entry D → Option (List (Entry D)) → Option (List (Entry D))
  with_entry e none = none
  with_entry e (some es) = some (e ∷ es)

  -- `_get_available_brokers`, with their metrics; `none` is a KeyError.
  unfoldable pub get_available_brokers :
      Dict String Bool → Dict String (BrokerMetrics D) → Option (List (Entry D))
  get_available_brokers brokers [] = some []
  get_available_brokers brokers ((n, m) ∷ ms) =
      let rest = get_available_brokers brokers ms in
      let with_it = with_entry (n, m) rest in
      if m.is_connected
      then with_it
      else elim (lookup n brokers) [ none ↦ none | some up ↦ if up then with_it else rest ]

  -- `min(…, key=…)`: the first of the least, from a first candidate.
  unfoldable pub first_least :
      (BrokerMetrics D → BrokerMetrics D → Bool) → Entry D → List (Entry D) → Entry D
  first_least lt e [] = e
  first_least lt e (f ∷ fs) = if lt (f.1) (e.1) then first_least lt f fs else first_least lt e fs

  -- `available[i]`, for an `i` below the length.
  unfoldable pub at : ℕ → Entry D → List (Entry D) → String
  at zero e fs = e.0
  at (suc i) e [] = e.0
  at (suc i) e (f ∷ fs) = at i f fs

  -- The fixed broker where it is available, and else the first that is.
  abbrev pub fixed_name : Option String → Entry D → List (Entry D) → String
  fixed_name none e es = e.0
  fixed_name (some n) e es = if elem n (names (e ∷ es)) then n else e.0

  abbrev pub sum_filled : List (Entry D) → ℕ
  sum_filled [] = 0
  sum_filled (e ∷ es) = e.1.filled_orders + sum_filled es

  abbrev less : ⦃d : Decimal D⦄ → D → D → Bool
  less ⦃d⦄ x y = not (d.leb y x)

module _ {A D : Type 0} ⦃d : Decimal D⦄ where
  abbrev pub succeed : RoutingStrategy → List (Order A D) → List String → RoutingResult A D
  succeed strategy orders chosen = record {
    orders = orders;
    broker_name = some chosen;
    strategy_used = strategy;
    error_message = none;
  }

  abbrev pub give_up : RoutingStrategy → Order A D → Failure → RoutingResult A D
  give_up strategy order failure = record {
    orders = order ∷ [];
    broker_name = none;
    strategy_used = strategy;
    error_message = some failure;
  }

  -- The parts for all brokers, or the exception out of the splitting, which `route_order` catches.
  abbrev pub with_parts :
      RoutingStrategy
      → Order A D
      → List String
      → Option (List (Order A D))
      → Failure ⊎ RoutingResult A D
  with_parts strategy order chosen none = inl value_error
  with_parts strategy order chosen (some parts) = inr (succeed strategy parts chosen)

  -- `_route_split`
  unfoldable pub route_split :
      Division D
      → (ℕ → String)
      → OrderRouter A D
      → Order A D
      → Entry D
      → List (Entry D)
      → Failure ⊎ RoutingResult A D
  unfolding split_order
  route_split v ids r order e es =
      if (length es == 0) || less order.quantity r.config.min_split_quantity
      then inr (succeed split (order ∷ []) (e.0 ∷ []))
      else with_parts split order (names (e ∷ es)) (
          split_order v ids order (min (length es + 1) r.config.max_split_parts)
            r.config.split_equal none)

  -- `_route_volume_weighted`
  unfoldable pub route_volume_weighted :
      Division D
      → (ℕ → String)
      → OrderRouter A D
      → Order A D
      → Entry D
      → List (Entry D)
      → Failure ⊎ RoutingResult A D
  unfolding split_order route_split
  route_volume_weighted v ids r order e es =
      if sum_filled (e ∷ es) == 0
      then route_split v ids r order e es
      else with_parts volume_weighted order (names (e ∷ es)) (
          split_order v ids order (length es + 1) false
            (some (map (λ f. f.1.filled_orders) (e ∷ es))))

  -- `_route_fixed`
  unfoldable pub route_fixed :
      OrderRouter A D → Order A D → Entry D → List (Entry D) → RoutingResult A D
  route_fixed r order e es =
      succeed fixed (order ∷ []) (fixed_name r.config.fixed_broker_name e es ∷ [])

  -- `_route_cost_based`, `_route_latency_based` and `_route_fill_rate_based`
  abbrev pub route_least :
      RoutingStrategy
      → (BrokerMetrics D → BrokerMetrics D → Bool)
      → Order A D
      → Entry D
      → List (Entry D)
      → RoutingResult A D
  route_least strategy lt order e es = succeed strategy (order ∷ []) ((first_least lt e es).0 ∷ [])

  -- `_route_round_robin`
  unfoldable pub route_round_robin :
      OrderRouter A D → Order A D → Entry D → List (Entry D) → RoutingResult A D × OrderRouter A D
  unfolding at
  route_round_robin r order e es =
      let n = length es + 1 in
      let idx = r.config.round_robin_index % n in
      (
        succeed round_robin (order ∷ []) (at idx e es ∷ []),
        record r { config = record r.config { round_robin_index = (idx + 1) % n } },
      )

  -- `_apply_strategy` where a broker is available; `inl` is an exception.
  unfoldable pub apply_strategy :
      Division D
      → (ℕ → String)
      → RoutingStrategy
      → OrderRouter A D
      → Order A D
      → Entry D
      → List (Entry D)
      → (Failure ⊎ RoutingResult A D) × OrderRouter A D
  unfolding route_split route_volume_weighted route_fixed route_round_robin first_least
  apply_strategy v ids cost_based r order e es = (
    inr (
        route_least cost_based (λ m n. less m.avg_commission_per_order n.avg_commission_per_order)
          order e es),
    r,
  )
  apply_strategy v ids latency_based r order e es = (
    inr (route_least latency_based (λ m n. less m.avg_latency_ms n.avg_latency_ms) order e es),
    r,
  )
  apply_strategy v ids fill_rate_based r order e es =
      (inr (route_least fill_rate_based (λ m n. less n.fill_rate m.fill_rate) order e es), r)
  apply_strategy v ids split r order e es = (route_split v ids r order e es, r)
  apply_strategy v ids fixed r order e es = (inr (route_fixed r order e es), r)
  apply_strategy v ids round_robin r order e es =
      let (result, s) = route_round_robin r order e es in (inr result, s)
  apply_strategy v ids volume_weighted r order e es = (route_volume_weighted v ids r order e es, r)

  -- The callbacks of a result that is returned, and of an exception that is caught.
  abbrev pub notify : RoutingResult A D → OrderRouter A D → RoutingResult A D × OrderRouter A D
  notify result r =
      (result, record r { routed = r.routed ++ map (λ cb. (cb, result)) r.on_route_callbacks })

  abbrev pub report :
      RoutingStrategy → Order A D → Failure → OrderRouter A D → RoutingResult A D × OrderRouter A D
  report strategy order failure r = (
    give_up strategy order failure,
    record r { errors_told = r.errors_told ++ map (λ cb. (cb, failure)) r.on_error_callbacks },
  )

  abbrev pub conclude :
      RoutingStrategy
      → Order A D
      → (Failure ⊎ RoutingResult A D) × OrderRouter A D
      → RoutingResult A D × OrderRouter A D
  conclude strategy order (inl failure, r) = report strategy order failure r
  conclude strategy order (inr result, r) = notify result r

  -- `route_order` with the strategy that the rules leave.
  abbrev pub route_among :
      Division D
      → (ℕ → String)
      → RoutingStrategy
      → OrderRouter A D
      → Order A D
      → Option (List (Entry D))
      → RoutingResult A D × OrderRouter A D
  route_among v ids strategy r order none = report strategy order key_error r
  route_among v ids strategy r order (some []) =
      notify (give_up strategy order no_connected_brokers) r
  route_among v ids strategy r order (some (e ∷ es)) =
      conclude strategy order (apply_strategy v ids strategy r order e es)

  -- `route_order` with that strategy and the brokers.
  abbrev pub route_registered :
      Division D
      → (ℕ → String)
      → RoutingStrategy
      → OrderRouter A D
      → Order A D
      → Dict String Bool
      → RoutingResult A D × OrderRouter A D
  route_registered v ids strategy r order [] = (give_up strategy order no_brokers_registered, r)
  route_registered v ids strategy r order (b ∷ bs) =
      route_among v ids strategy r order (get_available_brokers (b ∷ bs) r.metrics)

  abbrev pub strategy_given : Option RoutingStrategy → OrderRouter A D → RoutingStrategy
  strategy_given none r = r.config.default_strategy
  strategy_given (some s) r = s

  unfoldable pub route_order :
      Division D
      → (ℕ → String)
      → Dict String (Option String)
      → Option RoutingStrategy
      → Order A D
      → OrderRouter A D
      → RoutingResult A D × OrderRouter A D
  unfolding strategy_for
  route_order v ids ctx wanted order r =
      route_registered v ids (strategy_for ctx (strategy_given wanted r) r.rules) r order r.brokers
