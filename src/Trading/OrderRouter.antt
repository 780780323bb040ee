-- ===== src/Trading/OrderRouter.antt =====
-- `OrderRouter` of src/trading/order_router.py: its brokers, their metrics, and its rules. A broker is
-- what its `is_connected()` answers; metrics belong to one broker each. Floats are taken as decimals, and what
-- is computed of them by division is an argument. Left out are time stamps and latencies of results,
-- and the fields of the configuration that nothing reads.
pub mod Split
pub mod Route
pub mod Available
pub mod Choice
pub mod Totals
pub mod Turns
mod Tests
use algo_engine.Prelude.{
  ℕ, ◌+◌, Bool, true, false, not, ◌&&◌, ◌||◌, Option, none, some, List, [], ◌∷◌, ◌++◌, String,
  if◌then◌else◌, ◌==◌, map,
}
use algo_engine.Prelude.Eq.{Eq, ◌=?◌, string_eq}
use algo_engine.Prelude.Int.{ℤ, leb_ℤ}
use algo_engine.Prelude.Dict.{Dict, lookup, get_or, insert, erase, contains}
use algo_engine.Trading.Decimal.{Decimal}

pub data RoutingStrategy : Type 0 where
  cost_based latency_based fill_rate_based split fixed round_robin volume_weighted : RoutingStrategy

pub record RouterConfig (D : Type 0) : Type 0 where
  pub default_strategy : RoutingStrategy
  pub min_split_quantity : D
  pub max_split_parts : ℕ
  pub split_equal : Bool
  pub round_robin_index : ℕ
  -- `none` stands for `None` and for the empty name, which count alike
  pub fixed_broker_name : Option String

pub record BrokerMetrics (D : Type 0) : Type 0 where
  pub total_orders : ℕ
  pub filled_orders : ℕ
  pub rejected_orders : ℕ
  pub total_latency_ms : D
  pub avg_latency_ms : D
  pub total_commission : D
  pub avg_commission_per_order : D
  pub fill_rate : D
  pub is_connected : Bool

-- What is computed by division: a number over a count, a count over a count, and the decimals of
-- `weights[i] / total_w` for the weights of a list of counts.
pub record Division (D : Type 0) : Type 0 where
  pub one : D
  pub over : D → ℕ → D
  pub rate : ℕ → ℕ → D
  pub shares : List ℕ → List D

pub record RoutingRule : Type 0 where
  -- `none` is `None`
  pub conditions : Dict String (Option String)
  pub strategy : RoutingStrategy
  pub priority : ℤ

-- An order: what a copy carries over, its quantity, its id, and the tags that a split sets.
pub record Order (A D : Type 0) : Type 0 where
  pub details : A
  pub quantity : D
  pub order_id : String
  pub split_part : Option (ℕ × ℕ)
  pub parent_order_id : Option String

pub data Failure : Type 0 where
  no_brokers_registered no_connected_brokers value_error key_error : Failure

-- `broker_name` is the list of the names that it joins, and `none` where it says "none".
pub record RoutingResult (A D : Type 0) : Type 0 where
  pub orders : List (Order A D)
  pub broker_name : Option (List String)
  pub strategy_used : RoutingStrategy
  pub error_message : Option Failure

pub record OrderRouter (A D : Type 0) : Type 0 where
  pub config : RouterConfig D
  pub brokers : Dict String Bool
  pub metrics : Dict String (BrokerMetrics D)
  pub rules : List RoutingRule
  pub on_route_callbacks : List ℕ
  pub on_error_callbacks : List ℕ
  pub routed : List (ℕ × RoutingResult A D)
  pub errors_told : List (ℕ × Failure)

abbrev option_beq : Option String → Option String → Bool
option_beq none none = true
option_beq (some a) (some b) = a =? b
option_beq _ _ = false

-- `RoutingRule.matches`; `context.get` of a missing key is `None`.
unfoldable pub holds_in : Dict String (Option String) → Dict String (Option String) → Bool
holds_in ctx [] = true
holds_in ctx ((k, v) ∷ cs) =
    let rest = holds_in ctx cs in if option_beq (get_or k none ctx) v then rest else false

-- `self._rules.sort(key=lambda r: -r.priority)`, stable.
abbrev pub insert_rule : RoutingRule → List RoutingRule → List RoutingRule
insert_rule r [] = r ∷ []
insert_rule r (s ∷ ss) = if leb_ℤ s.priority r.priority then r ∷ s ∷ ss else s ∷ insert_rule r ss

abbrev pub sort_rules : List RoutingRule → List RoutingRule
sort_rules [] = []
sort_rules (r ∷ rs) = insert_rule r (sort_rules rs)

-- The strategy of the first rule that matches, or else the one given.
unfoldable pub strategy_for :
    Dict String (Option String) → RoutingStrategy → List RoutingRule → RoutingStrategy
unfolding holds_in
strategy_for ctx given [] = given
strategy_for ctx given (r ∷ rs) =
    let rest = strategy_for ctx given rs in if holds_in ctx r.conditions then r.strategy else rest

module _ {D : Type 0} ⦃d : Decimal D⦄ where
  open d use {zero, add}

  unfoldable pub new_metrics : BrokerMetrics D
  new_metrics = record {
    total_orders = 0;
    filled_orders = 0;
    rejected_orders = 0;
    total_latency_ms = zero;
    avg_latency_ms = zero;
    total_commission = zero;
    avg_commission_per_order = zero;
    fill_rate = zero;
    is_connected = false;
  }

  unfoldable pub record_submit : Division D → D → BrokerMetrics D → BrokerMetrics D
  record_submit v latency m =
      let total = add m.total_latency_ms latency in
      record m {
        total_orders = m.total_orders + 1;
        total_latency_ms = total;
        avg_latency_ms = v.over total (m.total_orders + 1);
      }

  rate_of : Division D → ℕ → ℕ → D
  rate_of v filled total = if total == 0 then zero else v.rate filled total

  unfoldable pub record_fill : Division D → D → BrokerMetrics D → BrokerMetrics D
  unfolding rate_of
  record_fill v commission m =
      let total = add m.total_commission commission in
      record m {
        filled_orders = m.filled_orders + 1;
        total_commission = total;
        avg_commission_per_order = v.over total (m.filled_orders + 1);
        fill_rate = rate_of v (m.filled_orders + 1) m.total_orders;
      }

  unfoldable pub record_rejection : Division D → BrokerMetrics D → BrokerMetrics D
  unfolding rate_of
  record_rejection v m = record m {
    rejected_orders = m.rejected_orders + 1;
    fill_rate = rate_of v m.filled_orders m.total_orders;
  }

module _ {A D : Type 0} ⦃d : Decimal D⦄ where
  -- `OrderRouter.__init__`
  unfoldable pub new_router : RouterConfig D → OrderRouter A D
  new_router config = record {
    config = config;
    brokers = [];
    metrics = [];
    rules = [];
    on_route_callbacks = [];
    on_error_callbacks = [];
    routed = [];
    errors_told = [];
  }

  unfoldable pub register_broker :
      String → Bool → Option (BrokerMetrics D) → OrderRouter A D → OrderRouter A D
  unfolding new_metrics
  register_broker name broker initial r = record r {
    brokers = insert name broker r.brokers;
    metrics = insert name (elim initial [ none ↦ new_metrics | some m ↦ m ]) r.metrics;
  }

  unfoldable pub unregister_broker : String → OrderRouter A D → OrderRouter A D
  unregister_broker name r = record r {
    brokers = erase name r.brokers;
    metrics = erase name r.metrics;
  }

  unfoldable pub add_rule : RoutingRule → OrderRouter A D → OrderRouter A D
  add_rule rule r = record r { rules = sort_rules (r.rules ++ (rule ∷ [])) }

  unfoldable pub update_metrics : String → BrokerMetrics D → OrderRouter A D → OrderRouter A D
  update_metrics name m r =
      if contains name r.metrics then record r { metrics = insert name m r.metrics } else r

  unfoldable pub update_connectivity : String → Bool → OrderRouter A D → OrderRouter A D
  update_connectivity name up r = elim (lookup name r.metrics) [
    | none ↦ r
    | some m ↦ record r { metrics = insert name (record m { is_connected = up }) r.metrics }
  ]

  unfoldable pub on_route : ℕ → OrderRouter A D → OrderRouter A D
  on_route callback r = record r { on_route_callbacks = r.on_route_callbacks ++ (callback ∷ []) }

  unfoldable pub on_error : ℕ → OrderRouter A D → OrderRouter A D
  on_error callback r = record r { on_error_callbacks = r.on_error_callbacks ++ (callback ∷ []) }
