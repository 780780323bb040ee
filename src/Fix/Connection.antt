-- ===== src/Fix/Connection.antt =====
-- `FIXConnection` of src/protocols/fix_handler.py, the factories, and the builders of `FIXSession`.
-- The monitoring task is there or not, and one turn of its loop is a function.
use algo_engine.Prelude.{
  ℕ, ◌+◌, ◌≡◌, Bool, true, false, Option, none, some, List, [], ◌∷◌, ◌++◌, arith, if◌then◌else◌,
}
use algo_engine.Prelude.Eq.{int_eq}
use algo_engine.Prelude.Int.{pos}
use algo_engine.Prelude.Dict.{lookup}
use algo_engine.Fix.Text.{Text, codes, str_nat}
use algo_engine.Fix.Message.{FixMessage}
use algo_engine.Fix.Message.Builders.{new_order_single, market_data_request}
use algo_engine.Fix.Session.{
  FixSession, FixSessionConfig, disconnected, logon_sent, logged_on, Environment, Outcome, done,
  state_eq,
}
use algo_engine.Fix.Session.Connection.{new_session, connect, disconnect}
use algo_engine.Fix.Session.Lifecycle.{connect_done}

-- `is_logged_on`
unfoldable pub is_logged_on : FixSession → Bool
unfolding state_eq
is_logged_on s = state_eq s.state logged_on

-- `x or default` on a text that may be missing.
or_else : Option Text → Text → Text
or_else none default = default
or_else (some []) default = default
or_else (some (c ∷ t)) default = c ∷ t

-- `build_new_order_single`; `millis` is the clock's reading in milliseconds.
unfoldable pub build_new_order_single :
    FixSession
    → Text
    → Text
    → Text
    → Option Text
    → Option Text
    → Text
    → Text
    → Text
    → Text
    → FixMessage
unfolding or_else new_order_single
build_new_order_single s symbol side qty price cl_ord_id ord_type millis now later =
    new_order_single s.config.sender_comp_id s.config.target_comp_id (pos 0)
      (or_else cl_ord_id (codes "ORD" ++ millis)) symbol side qty price ord_type (codes "0") now
      later

-- `build_market_data_request`
unfoldable pub build_market_data_request :
    FixSession → List Text → Option Text → Text → Text → FixMessage
unfolding or_else market_data_request
build_market_data_request s symbols md_req_id millis now =
    market_data_request s.config.sender_comp_id s.config.target_comp_id (pos 0)
      (or_else md_req_id (codes "MD" ++ millis)) symbols (codes "1") (pos 1) [] now

pub record FixConnection : Type 0 where
  pub session : FixSession
  pub monitoring : Bool

-- `FIXConnection.__init__`
unfoldable pub new_connection : FixSessionConfig → FixConnection
new_connection config = record { session = new_session config; monitoring = false }

is_fine : Outcome → Bool
is_fine done = true
is_fine _ = false

-- `start`: the monitor begins only if `connect` does not raise.
unfoldable pub start : (ℕ → Bool) → Environment → FixConnection → Outcome × FixConnection
unfolding connect is_fine
start opens env c =
    let (r, s) = connect opens env c.session in
    (r, record c { session = s; monitoring = if is_fine r then true else c.monitoring })

-- `stop`
unfoldable pub stop : Environment → FixConnection → Outcome × FixConnection
unfolding disconnect
stop env c =
    let (r, s) = disconnect env (codes "Normal") c.session in
    (r, record c { session = s; monitoring = false })

-- `is_connected`
unfoldable pub is_connected : FixConnection → Bool
unfolding is_logged_on
is_connected c = is_logged_on c.session

-- One turn of `_monitor_loop`, after the sleep; what `connect` raises is logged.
unfoldable pub monitor_turn : (ℕ → Bool) → Environment → FixConnection → FixConnection
unfolding state_eq connect
monitor_turn opens env c =
    if state_eq c.session.state disconnected
    then record c { session = (connect opens env c.session).1 }
    else c

abbrev make_config : Text → Text → Text → Text → ℕ → FixSessionConfig
make_config sender target username password heart_bt_int = record {
  sender_comp_id = sender;
  target_comp_id = target;
  username = username;
  password = password;
  heart_bt_int = heart_bt_int;
  reset_seq_numbers = false;
  max_reconnect_attempts = 10;
}

-- `create_fix_session`
unfoldable pub create_fix_session : Text → Text → Text → Text → ℕ → FixSession
create_fix_session sender target username password heart_bt_int =
    new_session (make_config sender target username password heart_bt_int)

-- `create_fix_connection`
unfoldable pub create_fix_connection : Text → Text → Text → Text → ℕ → FixConnection
unfolding new_connection
create_fix_connection sender target username password heart_bt_int =
    new_connection (make_config sender target username password heart_bt_int)

-- The monitor reconnects: when the session of a connection is DISCONNECTED and a `connect` in this
-- turn does not raise, a logon (MsgType A) with the session's next number has been written, that number
-- is used up, and the session is in LOGON_SENT.
pub monitor_turn_reconnects :
    (opens : ℕ → Bool) (env : Environment) (c : FixConnection)
    → c.session.state ≡ disconnected
    → (connect opens env c.session).0 ≡ done
    → let s = (monitor_turn opens env c).session in
      (m : FixMessage) × (lookup (pos 35) m ≡ some (codes "A"))
      × (lookup (pos 34) m ≡ some (str_nat c.session.seq_num_out))
      × (s.written ≡ m ∷ c.session.written)
      × (s.state ≡ logon_sent)
      × (s.seq_num_out ≡ c.session.seq_num_out + 1)
unfolding monitor_turn
monitor_turn_reconnects opens env c off back =
    let (m, kind, number, written, sent, used) = connect_done opens env c.session off back in
    (m, kind, number, ground arith, ground arith, ground arith)
