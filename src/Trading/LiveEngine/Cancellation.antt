-- ===== src/Trading/LiveEngine/Cancellation.antt =====
-- Cancelling orders and stopping in src/trading/live_engine.py.
use algo_engine.Prelude.{
  ℕ, ◌+◌, Bool, true, false, not, Option, none, some, List, [], ◌∷◌, String, if◌then◌else◌,
}
use algo_engine.Prelude.Eq.{Eq, elem, string_eq}
use algo_engine.Trading.OrderManager.{discard, get_order, matches}
use algo_engine.Trading.Execution.{cancel}
use algo_engine.Trading.LiveEngine.{offline, stop_event, order_cancelled, LiveEngine, emit}
use algo_engine.Trading.LiveEngine.Connection.{disconnect_broker}

module _ {S D : Type 0} where
  -- `_cancel_order`
  unfoldable pub cancel_one : ℕ → String → LiveEngine S D → Bool × LiveEngine S D
  unfolding cancel
  cancel_one now id e =
      let (done, x) = cancel now id e.execution in
      if done
      then (
        true,
        emit (order_cancelled id) (record e {
          execution = x;
          pending_orders = discard id e.pending_orders;
          stats = record (e.stats) { total_orders_cancelled = e.stats.total_orders_cancelled + 1 };
        }),
      )
      else (false, record e { execution = x })

  -- `cancel_order`
  unfoldable pub cancel_order : ℕ → String → LiveEngine S D → Bool × LiveEngine S D
  unfolding cancel_one get_order
  cancel_order now id e =
      if elem id e.pending_orders
      then cancel_one now id e
      else elim (get_order id e.execution.order_manager) [
        | none ↦ (false, e)
        | some o ↦ cancel_one now id e
      ]

  -- The loop of `cancel_all_orders` and of `stop`.
  unfoldable pub cancel_each : ℕ → List String → LiveEngine S D → ℕ × LiveEngine S D
  unfolding cancel_one
  cancel_each now [] e = (0, e)
  cancel_each now (id ∷ ids) e =
      let (done, e') = cancel_one now id e in
      let (n, e'') = cancel_each now ids e' in (if done then n + 1 else n, e'')

  -- `stop`
  unfoldable pub stop_live : ℕ → Bool → LiveEngine S D → LiveEngine S D
  unfolding cancel_each disconnect_broker
  stop_live now leaves e =
      if not e.running
      then e
      else (let e1 = record e { running = false } in
          let e2 =
            if e1.config.auto_reconnect then (cancel_each now e1.pending_orders e1).1 else e1 in
          emit stop_event (record (disconnect_broker leaves e2) { health = offline }))

module _ {S D : Type 0} ⦃eq : Eq S⦄ where
  -- The ids of the pending orders of a symbol, or of all.
  abbrev pub pending_of : Option S → LiveEngine S D → List String → List String
  pending_of symbol e [] = []
  pending_of symbol e (id ∷ ids) =
      let rest = pending_of symbol e ids in
      elim (get_order id e.execution.order_manager) [
        | none ↦ rest
        | some o ↦ if matches symbol o then id ∷ rest else rest
      ]

  -- `cancel_all_orders`
  unfoldable pub cancel_all_orders : ℕ → Option S → LiveEngine S D → ℕ × LiveEngine S D
  unfolding cancel_each get_order matches
  cancel_all_orders now symbol e = cancel_each now (pending_of symbol e e.pending_orders) e
