-- ===== src/Engine/Lifecycle.antt =====
-- `Engine` of src/engine/engine.py. The components are interfaces: which of them are there is a field
-- each, what they are told is recorded, the earliest first, and how a call of one ends is an argument.
-- The event bus is that of Events, with the number of an order event as data. The result handler, the
-- time keeper and the handlers of events are taken not to raise.
pub mod States
use algo_engine.Prelude.{
  ℕ, ◌+◌, Bool, true, false, not, ◌&&◌, ◌||◌, Option, none, some, List, [], ◌∷◌, ◌++◌, String,
  if◌then◌else◌,
}
use algo_engine.Prelude.Int.{pos}
use algo_engine.Engine.Events.Types.{
  EventType, tick, bar, order_filled, order_submitted, order_cancelled, start_event, stop_event,
  warmup_started, warmup_finished,
}
use algo_engine.Engine.Events as Bus
use algo_engine.Engine.Events.{Event, EventBus}

pub data EngineState : Type 0 where
  idle initializing warmup running paused stopping stopped error : EngineState

-- What a component is told.
pub data Action : Type 0 where
  connect_feed disconnect_feed initialize_algorithm set_algorithm set_cash warmup_over terminate :
      Action
  on_data on_order_event process_fill : Option ℕ → Action
  process_order : ℕ → Action
  cancel_order_of : String → Action

pub record Engine : Type 0 where
  pub is_backtest : Bool
  pub algorithm_class : Bool
  pub data_feed : Bool
  pub transaction_handler : Bool
  pub result_handler : Bool
  pub portfolio : Bool
  pub risk_manager : Bool
  pub state : EngineState
  pub algorithm : Bool
  pub is_warming_up : Bool
  pub is_running_flag : Bool
  pub tasks : ℕ
  pub time : ℕ
  pub bus : EventBus (Option ℕ)
  pub actions : List Action

-- How the calls of components end, and the time at which a warm-up starts.
pub record Surroundings : Type 0 where
  pub feed_connects : Bool
  pub algorithm_made : Bool
  pub algorithm_initializes : Bool
  pub cash_is_set : Bool
  pub warmup_start : ℕ
  pub warmup_is_heard : Bool
  pub feed_disconnects : Bool
  pub algorithm_terminates : Bool

unfoldable pub state_eq : EngineState → EngineState → Bool
state_eq idle idle = true
state_eq initializing initializing = true
state_eq warmup warmup = true
state_eq running running = true
state_eq paused paused = true
state_eq stopping stopping = true
state_eq stopped stopped = true
state_eq error error = true
state_eq _ _ = false

-- `__init__` with `_setup_event_handlers`: handler 0 is `_on_tick`, 1 `_on_bar`, 2 `_on_order_filled`.
unfoldable pub set_up : Engine → Engine
set_up e = record e {
  state = idle;
  algorithm = false;
  is_warming_up = false;
  is_running_flag = false;
  tasks = 0;
  bus =
      Bus.subscribe order_filled 2 false
        (Bus.subscribe bar 1 false (Bus.subscribe tick 0 false e.bus));
}

abbrev pub act : Action → Engine → Engine
act a e = record e { actions = e.actions ++ (a ∷ []) }

abbrev pub act_if : Bool → Action → Engine → Engine
act_if b a e = if b then act a e else e

-- `_on_tick` and `_on_bar`
unfoldable pub on_market_data : Option ℕ → Engine → Engine
on_market_data data_of e = act_if (e.algorithm && not e.is_warming_up) (on_data data_of) e

-- `_on_order_filled` on data that is an order event.
unfoldable pub on_order_filled : Option ℕ → Engine → Engine
on_order_filled none e = e
on_order_filled (some n) e =
    let f = act_if e.algorithm (on_order_event (some n)) e in
    act_if f.portfolio (process_fill (some n)) f

-- `self._event_bus.emit(Event(…))`
unfoldable pub announce : EventType → Option ℕ → Engine → Engine
announce t n e = record e {
  bus =
      Bus.emit
        (record {
          event_type = t;
          timestamp = e.time;
          payload = n;
          symbol = none;
          source = "";
          priority = pos 0;
        })
        e.bus;
}

fail : Engine → Bool × Engine
fail e = (false, record e { state = error })

-- The rest of `initialize` from the cash on.
initialize_cash : Surroundings → Engine → Bool × Engine
unfolding fail
initialize_cash s e =
    if e.portfolio
    then (let f = act set_cash e in if s.cash_is_set then (true, f) else fail f)
    else (true, e)

-- The rest of `initialize` from the algorithm on.
initialize_rest : Surroundings → Engine → Bool × Engine
unfolding fail initialize_cash
initialize_rest s e =
    if e.algorithm_class
    then if s.algorithm_made
      then (let f = act initialize_algorithm (record e { algorithm = true }) in
          if s.algorithm_initializes
          then initialize_cash s (act_if f.result_handler set_algorithm f)
          else fail f)
      else fail e
    else initialize_cash s e

unfoldable pub initialize : Surroundings → Engine → Bool × Engine
unfolding fail initialize_rest
initialize s e =
    let f = record e { state = initializing } in
    if f.data_feed
    then (let g = act connect_feed f in if s.feed_connects then initialize_rest s g else fail g)
    else initialize_rest s f

-- `warmup`: `false` is an exception out of the algorithm's `on_warmup_finished`.
unfoldable pub run_warmup : Surroundings → Engine → Bool × Engine
unfolding announce
run_warmup s e =
    if e.is_backtest
    then (let f =
          announce warmup_started none (record e { is_warming_up = true; state = warmup }) in
        let g =
          announce warmup_finished none
            (record f { time = s.warmup_start; is_warming_up = false; state = running }) in
        if g.algorithm then (s.warmup_is_heard, act warmup_over g) else (true, g))
    else (true, e)

-- The end of `start`.
unfoldable pub run_engine : Engine → Engine
unfolding announce
run_engine e =
    let f = announce start_event none (record e { state = running; is_running_flag = true }) in
    record f { tasks = if f.data_feed then f.tasks + 3 else f.tasks + 2 }

unfoldable pub warm_and_run : Surroundings → Bool × Engine → Engine
unfolding run_warmup run_engine
warm_and_run s (false, e) = e
warm_and_run s (true, e) = let (heard, f) = run_warmup s e in if heard then run_engine f else f

unfoldable pub start : Surroundings → Engine → Engine
unfolding initialize warm_and_run state_eq
start s e =
    if state_eq e.state running || state_eq e.state warmup
    then e
    else warm_and_run s (initialize s e)

unfoldable pub pause : Engine → Engine
unfolding state_eq
pause e = if state_eq e.state running then record e { state = paused } else e

unfoldable pub resume : Engine → Engine
unfolding state_eq
resume e = if state_eq e.state paused then record e { state = running } else e

-- The end of `stop`, after the feed and the algorithm.
shut_down : Engine → Engine
unfolding announce
shut_down e = announce stop_event none (record e { bus = Bus.stop e.bus; state = stopped })

stop_algorithm : Surroundings → Engine → Engine
unfolding shut_down
stop_algorithm s e =
    if e.algorithm
    then (let f = act terminate e in if s.algorithm_terminates then shut_down f else f)
    else shut_down e

unfoldable pub stop : Surroundings → Engine → Engine
unfolding state_eq stop_algorithm
stop s e =
    if state_eq e.state stopped
    then e
    else (let f = record e { state = stopping; is_running_flag = false } in
        if f.data_feed
        then (let g = act disconnect_feed f in if s.feed_disconnects then stop_algorithm s g else g)
        else stop_algorithm s f)

-- `submit_order`, by the verdict of the risk manager and the event that the transaction handler makes
-- of the order; `none` is an exception out of it.
unfoldable pub submit_order : Bool → Option ℕ → ℕ → Engine → Engine
unfolding state_eq announce
submit_order within_limits answer order e =
    if not (state_eq e.state running)
    then e
    else if e.risk_manager && not within_limits
    then e
    else if e.transaction_handler
    then (let f = act (process_order order) e in
        elim answer [ none ↦ f | some n ↦ announce order_submitted (some n) f ])
    else e

unfoldable pub cancel_order : Option ℕ → String → Engine → Engine
unfolding announce
cancel_order answer id e =
    if e.transaction_handler
    then (let f = act (cancel_order_of id) e in
        elim answer [ none ↦ f | some n ↦ announce order_cancelled (some n) f ])
    else e

-- `is_running`
unfoldable pub is_running : Engine → Bool
unfolding state_eq
is_running e = e.is_running_flag && state_eq e.state running
