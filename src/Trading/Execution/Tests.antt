-- ===== src/Trading/Execution/Tests.antt =====
-- The theorems about src/trading/execution_engine.py at inputs that meet their hypotheses, with whole
-- numbers for decimals.
use algo_engine.Prelude.{
  ◌≡◌, ◌≢◌, refl, subst, true, false, none, some, [], ◌∷◌, String, arith, Bool-cases, inl, inr,
}
use algo_engine.Prelude.Int.{ℤ, pos, ◌+ℤ◌, ◌-ℤ◌}
use algo_engine.Prelude.Eq.{◌=?◌, string_eq, elem}
use algo_engine.Prelude.Dict.{lookup}
use algo_engine.Trading.Decimal.{int_decimal, ℤ-IsOrdered}
use algo_engine.Trading.Order.{
  Order, Fill, limit, buy, gtc, submitted, pending, rejected, is_active,
}
use algo_engine.Trading.Market.{
  int_literals, Tick, CommissionModel, SlippageModel, mid_price, commission_for, slippage_for,
}
use algo_engine.Trading.Execution.{
  ExecutionEngine, no_broker, connected, submit, cancel, try_fill_order, apply_costs, process_tick,
  shift_price,
}
use algo_engine.Trading.Execution.Filled.{Has}
use algo_engine.Trading.Execution.Filling.{Outcome}
use algo_engine.Trading.Execution.Pending.{IsFresh, process_tick_lem}
use algo_engine.Trading.Execution.Prices.{IsAt, try_fill_order_lem}
use algo_engine.Trading.Execution.Rejected.{submit_refused}

abbrev order : Order String ℤ
order = record {
  symbol = "AUDUSD";
  side = buy;
  quantity = pos 100;
  order_type = limit;
  limit_price = some (pos 9);
  stop_price = none;
  time_in_force = gtc;
  order_id = "o1";
  status = pending;
  filled_quantity = pos 0;
  remaining_quantity = pos 100;
  avg_fill_price = none;
  updated_at = none;
  filled_at = none;
  cancelled_at = none;
}

abbrev tick : Tick String ℤ
tick = record {
  symbol = "AUDUSD";
  timestamp = 5;
  bid_price = pos 6;
  ask_price = pos 8;
  bid_size = pos 50;
  ask_size = pos 50;
  last_price = none;
}

abbrev commission : CommissionModel ℤ
commission = record {
  per_share = pos 1;
  min_per_order = pos 2;
  max_percent = pos 1;
  flat_fee = pos 0;
}

abbrev slippage_of_two : SlippageModel ℤ
slippage_of_two = record { fixed_slippage = pos 2; percentage = pos 0; volume_impact = pos 0 }

abbrev engine : ExecutionEngine String ℤ
engine = record {
  broker = no_broker;
  commission_model = commission;
  slippage_model = slippage_of_two;
  order_manager = record {
    orders = ("o1", order) ∷ [];
    orders_by_symbol = ("AUDUSD", "o1" ∷ []) ∷ [];
    active_orders = "o1" ∷ [];
    on_order_callbacks = [];
    on_fill_callbacks = [];
    on_cancel_callbacks = [];
    notified = [];
  };
  position_manager = record { positions = []; trades = []; trade_counter = 0 };
  last_prices = [];
  delivered = [];
  fills_made = 0;
}

-- The limit is 9, and the price paid is 8 and a slippage of 2.
abbrev fill : String → Fill String ℤ
fill id = record {
  order_id = "o1";
  symbol = "AUDUSD";
  side = buy;
  quantity = pos 100;
  fill_price = pos 10;
  fill_time = 5;
  fill_id = id;
  commission = pos 8;
  slippage = pos 2;
}

fills_above_limit :
    (id : String) → try_fill_order commission slippage_of_two id order tick ≡ some (some (fill id))
unfolding try_fill_order apply_costs commission_for slippage_for ◌+ℤ◌ ◌-ℤ◌
fills_above_limit id = refl

try_fill_order_lem_example :
    (p : ℤ) × IsAt limit buy (some (pos 9)) none tick p
    × (pos 10 ≡ shift_price buy p (pos 2))
    × (pos 100 ≡ pos 100)
    × (buy ≡ buy)
    × (order.order_id ≡ order.order_id)
try_fill_order_lem_example =
    try_fill_order_lem commission slippage_of_two "f1" order tick (fills_above_limit "f1")

only_order : (o : Order String ℤ) → Has engine.order_manager o.order_id o → order ≡ o
only_order o there = elim (Bool-cases ("o1" =? o.order_id)) [
  | inl e ↦ ground (arith, there)
  | inr e ↦ absurd (let wrong : ⊥ = ground (arith, there) in wrong)
]

order-IsFresh : IsFresh tick engine order
order-IsFresh = record { unfilled = refl; decided = inl (λ id. (fill id, fills_above_limit id)) }

mid : mid_price tick ≡ some (pos 7)
unfolding mid_price ◌+ℤ◌
mid = refl

o1-active : is_active order ≡ true
unfolding is_active
o1-active = refl

process_tick_lem_example :
    (e' : ExecutionEngine String ℤ) × (process_tick (λ _. "f1") 5 tick engine ≡ some e')
    × Outcome commission slippage_of_two tick e'.order_manager order
process_tick_lem_example =
    process_tick_lem (λ _. "f1") ℤ-IsOrdered 5 tick engine mid refl
      ((order, refl, o1-active, refl), tt) (refl, tt)
      (λ o there _. subst (IsFresh tick engine) (only_order o there) order-IsFresh) "o1" order refl
      refl

abbrev at_broker : ExecutionEngine String ℤ
at_broker = record engine { broker = connected }

abbrev new_order : Order String ℤ
new_order = record order { order_id = "o2"; status = submitted }

not_taken : (some false) ≢ some true
not_taken = λ h. ground (arith, h)

submit_refused_example :
    let (taken, e') = submit (some false) new_order at_broker in
    (taken ≡ false)
    × (lookup "o2" e'.order_manager.orders ≡ some (record new_order { status = rejected }))
    × (elem "o2" e'.order_manager.active_orders ≡ true)
    × (cancel 7 "o2" e' ≡ (false, e'))
submit_refused_example = submit_refused (some false) 7 new_order at_broker refl not_taken
