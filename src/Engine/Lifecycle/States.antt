-- ===== src/Engine/Lifecycle/States.antt =====
-- The states of `Engine` (src/engine/engine.py).
use algo_engine.Prelude.{
  ℕ, ◌+◌, ◌≡◌, ◌≢◌, refl, Bool, true, false, not, ◌&&◌, ◌||◌, Option, List, [], ◌∷◌, ◌++◌, String,
  arith, if◌then◌else◌, ◌⊎◌, inl, inr, ◌∙◌, Bool-cases,
}
use algo_engine.Engine.Lifecycle.{
  Engine, idle, initializing, warmup, running, paused, stopping, stopped, error, process_order,
  set_cash, Surroundings, set_up, start, pause, resume, stop, submit_order, cancel_order, state_eq,
  initialize, warm_and_run, run_warmup,
}

-- The calls of the engine's methods.
pub data Command : Type 0 where
  start_it stop_it initialize_it warm_up : Surroundings → Command
  pause_it resume_it : Command
  submit : Bool → Option ℕ → ℕ → Command
  cancel : Option ℕ → String → Command

unfoldable pub obey : Command → Engine → Engine
obey (start_it s) e = start s e
obey (stop_it s) e = stop s e
obey (initialize_it s) e = (initialize s e).1
obey (warm_up s) e = (run_warmup s e).1
obey pause_it e = pause e
obey resume_it e = resume e
obey (submit ok answer order) e = submit_order ok answer order e
obey (cancel answer id) e = cancel_order answer id e

unfoldable pub obey_all : List Command → Engine → Engine
obey_all [] e = e
obey_all (c ∷ cs) e = obey_all cs (obey c e)

-- Between two calls: no warm-up goes on and the state is not WARMUP; the flag is clear while IDLE,
-- STOPPING or STOPPED, and while RUNNING or PAUSED it is set, or the engine is one for backtests.
abbrev pub IsSettled : Engine → Type 0
IsSettled e =
    (e.is_warming_up ≡ false)
    × (((e.state ≡ idle) × (e.is_running_flag ≡ false))
        ⊎ (((e.state ≡ running) ⊎ (e.state ≡ paused))
            × ((e.is_running_flag ≡ true) ⊎ (e.is_backtest ≡ true)))
        ⊎ (((e.state ≡ stopping) ⊎ (e.state ≡ stopped)) × (e.is_running_flag ≡ false))
        ⊎ (e.state ≡ initializing)
        ⊎ (e.state ≡ error))

-- What `initialize` leaves alone, and the state that it ends in.
initialize_state :
    (s : Surroundings) (e : Engine)
    → let (ok, f) = initialize s e in
      (f.state ≡ (if ok then initializing else error))
      × (f.is_warming_up ≡ e.is_warming_up)
      × (f.is_running_flag ≡ e.is_running_flag)
      × (f.is_backtest ≡ e.is_backtest)
unfolding initialize
initialize_state s e = (ground arith, ground arith, ground arith, ground arith)

warm_and_run-IsSettled :
    (s : Surroundings) (ok : Bool) (f : Engine)
    → f.is_warming_up ≡ false
    → f.state ≡ (if ok then initializing else error)
    → IsSettled (warm_and_run s (ok, f))
unfolding warm_and_run
warm_and_run-IsSettled s true f w h = ground arith
warm_and_run-IsSettled s false f w h = ground arith

start-IsSettled : (s : Surroundings) (e : Engine) → IsSettled e → IsSettled (start s e)
unfolding start
start-IsSettled s e h =
    let (state, warming, _, _) = initialize_state s e in
    let rest =
      warm_and_run-IsSettled s (initialize s e).0 (initialize s e).1 (warming ∙ h.0) state in
    elim (Bool-cases (state_eq e.state running || state_eq e.state warmup)) [
      | inl on ↦ rw on h
      | inr off ↦ rw off rest
    ]

initialize-IsSettled : (s : Surroundings) (e : Engine) → IsSettled e → IsSettled (initialize s e).1
initialize-IsSettled s e h =
    let (state, warming, _, _) = initialize_state s e in
    elim (Bool-cases (initialize s e).0) [
      | inl ok ↦ (warming ∙ h.0, inr (inr (inr (inl (rw ok at state)))))
      | inr failed ↦ (warming ∙ h.0, inr (inr (inr (inr (rw failed at state)))))
    ]

run_warmup-IsSettled : (s : Surroundings) (e : Engine) → IsSettled e → IsSettled (run_warmup s e).1
unfolding run_warmup
run_warmup-IsSettled s e h = ground arith

stop-IsSettled : (s : Surroundings) (e : Engine) → IsSettled e → IsSettled (stop s e)
unfolding stop
stop-IsSettled s e h = ground arith

submit_order-IsSettled :
    (ok : Bool) (answer : Option ℕ) (order : ℕ) (e : Engine)
    → IsSettled e
    → IsSettled (submit_order ok answer order e)
unfolding submit_order
submit_order-IsSettled ok answer order e h = ground arith

cancel_order-IsSettled :
    (answer : Option ℕ) (id : String) (e : Engine)
    → IsSettled e
    → IsSettled (cancel_order answer id e)
unfolding cancel_order
cancel_order-IsSettled answer id e h = ground arith

obey-IsSettled : (c : Command) (e : Engine) → IsSettled e → IsSettled (obey c e)
unfolding obey pause resume
obey-IsSettled (start_it s) e h = start-IsSettled s e h
obey-IsSettled (stop_it s) e h = stop-IsSettled s e h
obey-IsSettled (initialize_it s) e h = initialize-IsSettled s e h
obey-IsSettled (warm_up s) e h = run_warmup-IsSettled s e h
obey-IsSettled pause_it e h = ground arith
obey-IsSettled resume_it e h = ground arith
obey-IsSettled (submit ok answer order) e h = submit_order-IsSettled ok answer order e h
obey-IsSettled (cancel answer id) e h = cancel_order-IsSettled answer id e h

obey_all-IsSettled : (cs : List Command) (e : Engine) → IsSettled e → IsSettled (obey_all cs e)
unfolding obey_all
obey_all-IsSettled [] e h = h
obey_all-IsSettled (c ∷ cs) e h = obey_all-IsSettled cs (obey c e) (obey-IsSettled c e h)

-- Whatever calls of start, stop, initialize, warmup, pause, resume, submit_order and cancel_order are
-- made of a new engine, one after another, and however those of its components end: between two calls
-- no warm-up goes on and the state is not WARMUP; the flag `_running` is clear while the state is IDLE,
-- STOPPING or STOPPED, and while RUNNING or PAUSED it is set unless the engine is one for backtests.
pub reachable-IsSettled : (cs : List Command) (e : Engine) → IsSettled (obey_all cs (set_up e))
unfolding set_up
reachable-IsSettled cs e = obey_all-IsSettled cs (set_up e) (refl, inl (refl, refl))

-- An order reaches the transaction handler exactly if the engine is RUNNING, there is a transaction
-- handler, and the risk manager, if there is one, finds the portfolio within its limits; if not,
-- nothing changes.
pub submit_order_lem :
    (ok : Bool) (answer : Option ℕ) (order : ℕ) (e : Engine)
    → ((submit_order ok answer order e).actions ≡ e.actions ++ (process_order order ∷ []))
        × (e.state ≡ running)
        × (e.transaction_handler ≡ true)
        × ((e.risk_manager && not ok) ≡ false)
      ⊎ (submit_order ok answer order e ≡ e)
        × ((e.state ≢ running)
            ⊎ (e.transaction_handler ≡ false)
            ⊎ ((e.risk_manager && not ok) ≡ true))
unfolding submit_order state_eq
submit_order_lem ok answer order e = ground arith

-- A start of an engine that is PAUSED, where all goes well and it is not one for backtests, initializes
-- it again: the cash of its portfolio is set anew, its tasks are created a second time beside those
-- that run, and it is RUNNING.
pub start_paused :
    (s : Surroundings) (e : Engine)
    → e.state ≡ paused
    → e.is_backtest ≡ false
    → e.data_feed ≡ false
    → e.algorithm_class ≡ false
    → e.portfolio ≡ true
    → s.cash_is_set ≡ true
    → ((start s e).state ≡ running)
      × ((start s e).actions ≡ e.actions ++ (set_cash ∷ []))
      × ((start s e).tasks ≡ e.tasks + 2)
unfolding start
start_paused s e h b d a p c = ground arith
