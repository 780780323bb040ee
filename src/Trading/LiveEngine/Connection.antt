-- ===== src/Trading/LiveEngine/Connection.antt =====
-- The broker of src/trading/live_engine.py: connecting, starting, disconnecting.
use algo_engine.Prelude.{Bool, true, false, Option, some, if◌then◌else◌}
use algo_engine.Trading.Execution.{Broker, no_broker, connected, disconnected}
use algo_engine.Trading.LiveEngine.{
  healthy, critical, start_event, LiveEngine, is_live, emit, with_broker,
}

-- The broker after `_disconnect_broker`, by whether its `disconnect` returns.
abbrev pub broker_after : Bool → Broker → Broker
broker_after leaves no_broker = no_broker
broker_after true b = disconnected
broker_after false b = b

module _ {S D : Type 0} where
  -- `_connect_broker`, by what the broker's `connect` comes to; `none` is a timeout or an exception.
  abbrev pub connect_by : Broker → Option Bool → LiveEngine S D → Bool × LiveEngine S D
  connect_by no_broker answer e =
      if is_live e.mode then (false, e) else (true, record e { is_connected = true })
  connect_by b (some true) e =
      (true, with_broker connected (record e { is_connected = true; health = healthy }))
  connect_by b answer e = (false, record e { is_connected = false; health = critical })

  unfoldable pub connect_broker : Option Bool → LiveEngine S D → Bool × LiveEngine S D
  connect_broker answer e = connect_by e.execution.broker answer e

  -- The end of `start`, by whether the broker is connected.
  abbrev pub finish_start : Bool × LiveEngine S D → Bool × LiveEngine S D
  finish_start (true, e) = (true, emit start_event (record e { health = healthy }))
  finish_start (false, e) = (false, record e { running = false })

  -- `start`
  unfoldable pub start : Option Bool → LiveEngine S D → Bool × LiveEngine S D
  unfolding connect_broker
  start answer e =
      if e.running
      then (true, e)
      else finish_start (connect_broker answer (record e { running = true }))

  -- `_disconnect_broker`
  unfoldable pub disconnect_broker : Bool → LiveEngine S D → LiveEngine S D
  disconnect_broker leaves e =
      with_broker (broker_after leaves e.execution.broker) (record e { is_connected = false })
