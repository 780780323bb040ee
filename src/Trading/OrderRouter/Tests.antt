-- ===== src/Trading/OrderRouter/Tests.antt =====
-- The theorems about src/trading/order_router.py at inputs that meet their hypotheses, with whole
-- numbers for decimals and floats.
use algo_engine.Prelude.{
  ℕ, ◌+◌, ◌%◌, ◌≡◌, refl, true, false, none, some, List, [], ◌∷◌, String, arith, length, ◌⊎◌, map,
}
use algo_engine.Prelude.Int.{ℤ, pos, leb_ℤ}
use algo_engine.Trading.Decimal.{
  int_decimal, hundredths, hundredths-IsChain, hundredths-IsOrdered, hundredths-IsOrderedSum,
}
use algo_engine.Trading.OrderRouter.{
  Order, OrderRouter, RouterConfig, Division, cost_based, new_metrics, new_router, register_broker,
}
use algo_engine.Trading.OrderRouter.Split.{larger, init, split_order}
use algo_engine.Trading.OrderRouter.Route.{
  apply_strategy, get_available_brokers, Entry, at, route_order, route_round_robin,
}
use algo_engine.Trading.OrderRouter.Choice.{IsSent, IsRefused, route_order_lem}
use algo_engine.Trading.OrderRouter.Totals.{total, raised, units, split_order_lem}
use algo_engine.Trading.OrderRouter.Turns.{route_each, route_each_lem}

-- Every share is nothing, as the share of a broker that has filled little is when rounded.
abbrev division : Division ℤ
division = record {
  one = pos 1;
  over = λ a n. a;
  rate = λ a n. pos 0;
  shares = λ ns. map (λ n. pos 0) ns;
}

abbrev ids : ℕ → String
ids n = "part"

abbrev order : Order String ℤ
order = record {
  details = "AUDUSD";
  quantity = pos 1;
  order_id = "o1";
  split_part = none;
  parent_order_id = none;
}

abbrev config : RouterConfig ℤ
config = record {
  default_strategy = cost_based;
  min_split_quantity = pos 100;
  max_split_parts = 5;
  split_equal = true;
  round_robin_index = 0;
  fixed_broker_name = none;
}

abbrev router : OrderRouter String ℤ
unfolding new_router register_broker
router = register_broker "sim" true none (register_broker "oanda" false none (new_router config))

route_order_lem_example :
    let result = (route_order division ids [] none order router).0 in
    IsSent router result ⊎ IsRefused order result
route_order_lem_example = route_order_lem division ids [] none order router

-- Only the second broker is up.
routed_to_sim : (route_order division ids [] none order router).0.broker_name ≡ some ("sim" ∷ [])
unfolding route_order router get_available_brokers apply_strategy
routed_to_sim = refl

-- The parts of `b` for each of some brokers.
abbrev shares_of : ℕ → List ℕ → List ℤ
shares_of total [] = []
shares_of total (n ∷ ns) = elim (hundredths.div (pos n) (pos total)) as (λ _. List ℤ) [
  | none ↦ pos 0 ∷ shares_of total ns
  | some x ↦ x ∷ shares_of total ns
]

-- In hundredths: a unit is 100, and the shares of ten counts are tenths.
abbrev in_hundredths : Division ℤ
in_hundredths = record {
  one = pos 100;
  over = λ a n. a;
  rate = λ a n. pos 0;
  shares = shares_of 10;
}

-- Two and a half units.
abbrev small : Order String ℤ
small = record order { quantity = pos 250 }

-- The shares are 0.5, 0.2, 0.2 and 0.1 of 2.5 units: the parts are 1.25, 1, 1 and 0.
split_order_lem_example :
    (parts : List (Order String ℤ)) × (split_order ⦃d = hundredths⦄ in_hundredths ids small 4 false
        (some (5 ∷ 2 ∷ 2 ∷ 1 ∷ []))
      ≡ some parts)
    × (length parts ≡ 4)
    × (total ⦃d = hundredths⦄ parts
        ≡ larger ⦃d = hundredths⦄
            (raised ⦃d = hundredths⦄
              (pos 100)
              (pos 250)
              (init (pos 50 ∷ pos 20 ∷ pos 20 ∷ pos 10 ∷ [])))
            (pos 250))
    × (leb_ℤ (units ⦃d = hundredths⦄ (pos 100) 3) (total ⦃d = hundredths⦄ parts) ≡ true)
split_order_lem_example =
    split_order_lem ⦃d = hundredths⦄ hundredths-IsChain hundredths-IsOrdered hundredths-IsOrderedSum
      in_hundredths ids small 4 (5 ∷ 2 ∷ 2 ∷ 1 ∷ []) (omega arith) refl refl

abbrev entry : String → Entry ℤ
unfolding new_metrics
entry n = (n, new_metrics)

route_each_lem_example :
    (route_round_robin
      (route_each (order ∷ order ∷ order ∷ []) router (entry "a") (entry "b" ∷ []))
      order
      (entry "a")
      (entry "b" ∷ [])).0.broker_name
    ≡ some (at ((router.config.round_robin_index + 3) % 2) (entry "a") (entry "b" ∷ []) ∷ [])
route_each_lem_example =
    route_each_lem (order ∷ order ∷ order ∷ []) order router (entry "a") (entry "b" ∷ [])
