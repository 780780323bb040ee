-- ===== src/Engine/Tests.antt =====
-- The theorems about src/engine at inputs that meet their hypotheses.
use algo_engine.Prelude.{ℕ, ◌≡◌, true, false, none, some, List, [], ◌∷◌, ◌++◌}
use algo_engine.Prelude.Int.{pos}
use algo_engine.Engine.Events.Types.{tick, bar}
use algo_engine.Engine.Events.{Event, new_bus, emit, calls}
use algo_engine.Engine.Events.Handlers.{change_all, emit-replay}
use algo_engine.Engine.Events.Replay.{
  key_eq, typed, global, Change, add_handler, remove_handler, replay, pick,
}
use algo_engine.Engine.Events.Queue.{
  puts, Step, put, end_wait, stop_bus, start_bus, run, run-Delivers, Delivers,
}
use algo_engine.Engine.Lifecycle.{Engine, running, paused, idle, Surroundings, set_up}
use algo_engine.Engine.Lifecycle.States.{
  Command, start_it, stop_it, pause_it, resume_it, submit, obey_all, IsSettled, reachable-IsSettled,
}

abbrev tick_at : ℕ → Event ℕ
tick_at t = record {
  event_type = tick;
  timestamp = t;
  payload = 1;
  symbol = none;
  source = "feed";
  priority = pos 0;
}

-- Handler 5 is subscribed twice and cancelled once.
abbrev changes : List Change
changes =
    add_handler (typed tick false) 5
    ∷ add_handler (global false) 6
    ∷ add_handler (typed tick false) 5
    ∷ add_handler (typed bar false) 8
    ∷ remove_handler (typed tick false) 5
    ∷ add_handler (typed tick true) 7
    ∷ []

emit-replay_example :
    let b = change_all changes new_bus in
    let s = replay changes [] in
    ((emit (tick_at 3) b).called
      ≡ b.called
        ++ (calls (tick_at 3) (pick (typed tick false) s)
            ++ calls (tick_at 3) (pick (global false) s)))
    × ((emit (tick_at 3) b).tasks
        ≡ b.tasks
          ++ (calls (tick_at 3) (pick (typed tick true) s)
              ++ calls (tick_at 3) (pick (global true) s)))
emit-replay_example = emit-replay changes (tick_at 3)

abbrev steps : List (Step ℕ)
steps =
    put (tick_at 1) ∷ start_bus ∷ end_wait ∷ put (tick_at 2) ∷ stop_bus ∷ end_wait ∷ end_wait ∷ []

run-Delivers_example : (es : List (Event ℕ)) × Delivers new_bus (run steps new_bus) (puts steps) es
run-Delivers_example = run-Delivers steps new_bus

abbrev plain : Engine
plain = record {
  is_backtest = false;
  algorithm_class = false;
  data_feed = false;
  transaction_handler = true;
  result_handler = false;
  portfolio = true;
  risk_manager = true;
  state = idle;
  algorithm = false;
  is_warming_up = false;
  is_running_flag = false;
  tasks = 0;
  time = 4;
  bus = new_bus;
  actions = [];
}

abbrev fine : Surroundings
fine = record {
  feed_connects = true;
  algorithm_made = true;
  algorithm_initializes = true;
  cash_is_set = true;
  warmup_start = 2;
  warmup_is_heard = true;
  feed_disconnects = true;
  algorithm_terminates = true;
}

abbrev commands : List Command
commands = start_it fine ∷ submit true (some 1) 9 ∷ pause_it ∷ resume_it ∷ stop_it fine ∷ []

reachable-IsSettled_example : IsSettled (obey_all commands (set_up plain))
reachable-IsSettled_example = reachable-IsSettled commands plain

abbrev at_work : Engine
at_work = record plain { state = running; is_running_flag = true }

abbrev at_rest : Engine
at_rest = record plain { state = paused; is_running_flag = true; tasks = 2 }
