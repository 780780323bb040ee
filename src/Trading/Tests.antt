-- ===== src/Trading/Tests.antt =====
-- The theorems about src/trading/models.py and order_manager.py at inputs that meet their hypotheses,
-- with whole numbers for decimals.
use algo_engine.Prelude.{
  ℕ, ◌≡◌, ◌≢◌, refl, Bool, true, false, Option, none, some, List, [], ◌∷◌, String, arith,
}
use algo_engine.Prelude.Eq.{string_eq, elem}
use algo_engine.Prelude.Int.{ℤ, pos, ◌+ℤ◌, ◌-ℤ◌}
use algo_engine.Prelude.Dict.{lookup}
use algo_engine.Trading.Decimal.{int_decimal, ℤ-IsPositiveSum}
use algo_engine.Trading.Order.{
  Order, Fill, limit, buy, sell, gtc, accepted, partially_filled, is_active, is_cancelled, cancel,
  update_fill,
}
use algo_engine.Trading.OrderManager.{
  OrderManager, new_manager, register_order, cancel_order, process_fill,
}
use algo_engine.Trading.OrderManager.Active.{
  Operation, register, fill_order, cancel_one, cancel_all, perform_all, reachable-IsConsistent,
  fill_after_cancel,
}
use algo_engine.Trading.OrderManager.Cancelled.{IsConsistent}
use algo_engine.Trading.Position.{Position, is_long}
use algo_engine.Trading.PositionManager.{PositionManager, no_positions}
use algo_engine.Trading.PositionManager.Holding.{AllHeld, process_all, reachable-AllHeld}

abbrev order : Order String ℤ
order = record {
  symbol = "AUDUSD";
  side = buy;
  quantity = pos 100;
  order_type = limit;
  limit_price = some (pos 7);
  stop_price = none;
  time_in_force = gtc;
  order_id = "o1";
  status = accepted;
  filled_quantity = pos 0;
  remaining_quantity = pos 100;
  avg_fill_price = none;
  updated_at = none;
  filled_at = none;
  cancelled_at = none;
}

abbrev fill : Fill String ℤ
fill = record {
  order_id = "o1";
  symbol = "AUDUSD";
  side = buy;
  quantity = pos 40;
  fill_price = pos 7;
  fill_time = 5;
  fill_id = "f1";
  commission = pos 0;
  slippage = pos 0;
}

abbrev part_filled : Order String ℤ
part_filled = record order {
  status = partially_filled;
  filled_quantity = pos 40;
  remaining_quantity = pos 60;
  avg_fill_price = some (pos 7);
  updated_at = some 5;
}

part_fills : update_fill 5 (pos 40) (pos 7) order ≡ some part_filled
unfolding update_fill algo_engine.Prelude.Int.◌-ℤ◌ algo_engine.Prelude.Int.◌+ℤ◌
part_fills = refl

is_live : is_active order ≡ true
unfolding is_active
is_live = refl

abbrev history : List (Operation String ℤ)
history =
    register order is_live ∷ fill_order 5 "o1" fill ∷ cancel_one 6 "o1" ∷ cancel_all 7 none ∷ []

reachable-IsConsistent_example : IsConsistent (perform_all history new_manager)
reachable-IsConsistent_example = reachable-IsConsistent history

-- The manager with the order registered and cancelled.
abbrev after_cancel : OrderManager String ℤ
unfolding new_manager register_order cancel_order
after_cancel = (cancel_order 6 "o1" (register_order order new_manager)).1

abbrev cancelled_order : Order String ℤ
unfolding cancel
cancelled_order = cancel 6 order

abbrev after_fill : OrderManager String ℤ
unfolding after_cancel process_fill
after_fill = elim (process_fill 7 "o1" fill after_cancel) [ none ↦ after_cancel | some m ↦ m ]

fills : process_fill 7 "o1" fill after_cancel ≡ some after_fill
unfolding after_fill is_active update_fill cancel
fills = refl

fill_after_cancel_example :
    (o' : Order String ℤ) × (lookup "o1" after_fill.orders ≡ some o')
    × (is_active o' ≡ true)
    × (elem "o1" after_fill.active_orders ≡ false)
    × ((cancel_order 7 "o1" after_fill).0 ≡ true)
unfolding after_cancel is_active cancelled_order cancel is_cancelled algo_engine.Prelude.Int.◌-ℤ◌
    after_fill
fill_after_cancel_example =
    fill_after_cancel 7 "o1" fill after_cancel cancelled_order refl refl refl refl fills

abbrev sale : Fill String ℤ
sale = record fill {
  side = sell;
  quantity = pos 50;
  fill_id = "f2";
  fill_price = pos 9;
  fill_time = 8;
}

reachable-AllHeld_example : AllHeld (process_all (fill ∷ sale ∷ []) no_positions)
reachable-AllHeld_example = reachable-AllHeld ℤ-IsPositiveSum (fill ∷ sale ∷ []) (refl, (refl, tt))

abbrev position : Position String ℤ
position = record {
  symbol = "AUDUSD";
  side = buy;
  quantity = pos 40;
  avg_entry_price = some (pos 7);
  current_price = none;
  last_update_time = none;
  opened_at = some 5;
  updated_at = some 5;
  total_trades = 1;
  realized_pnl = pos 0;
}

abbrev held : PositionManager String ℤ
held = record { positions = ("AUDUSD", position) ∷ []; trades = []; trade_counter = 0 }

position-is_long : is_long position ≡ true
unfolding is_long
position-is_long = refl
