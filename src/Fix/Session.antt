-- ===== src/Fix/Session.antt =====
-- `FIXSession` of src/protocols/fix_handler.py: its state, the sending of messages and the handling
-- of those received. A method is a function of the environment that it meets and of the state; an
-- exception comes back beside the state that it leaves. Callbacks are numbers, and what is called is
-- recorded, the latest first; they are taken to leave the session alone. Within one call all
-- readings of a clock are one.
pub mod Connection
pub mod Numbers
pub mod States
pub mod Lifecycle
use algo_engine.Prelude.{
  ℕ, zero, suc, ◌+◌, ◌-◌, ◌≡◌, refl, Bool, true, false, not, ◌&&◌, ◌||◌, Option, none, some, List,
  [], ◌∷◌, ◌++◌, arith, if◌then◌else◌, ltb, leb, ◌==◌, length,
}
use algo_engine.Prelude.Eq.{◌=?◌, int_eq, elem}
use algo_engine.Prelude.Int.{ℤ, pos}
use algo_engine.Prelude.Dict.{Dict, lookup, get_or, insert, contains}
use algo_engine.Fix.Text.{Text, codes, str_nat, text_eq, text_key_eq}
use algo_engine.Fix.Message.{FixMessage, msg_type}
use algo_engine.Fix.Message.Builders.{put, logon, heartbeat, logout}
use algo_engine.Fix.Wire.{encode}

pub data SessionState : Type 0 where
  disconnected connecting logon_sent logged_on logout_sent closing : SessionState

pub record FixSessionConfig : Type 0 where
  pub sender_comp_id : Text
  pub target_comp_id : Text
  pub username : Text
  pub password : Text
  pub heart_bt_int : ℕ
  pub reset_seq_numbers : Bool
  pub max_reconnect_attempts : ℕ

pub record SessionStats : Type 0 where
  pub messages_sent : ℕ
  pub messages_received : ℕ
  pub bytes_sent : ℕ
  pub bytes_received : ℕ
  pub last_sent_time : ℕ
  pub last_received_time : ℕ
  pub last_heartbeat_sent : ℕ
  pub last_heartbeat_received : ℕ
  pub reconnect_count : ℕ
  pub errors : ℕ
  pub login_time : ℕ

-- A state handler's call.
pub record Notice : Type 0 where
  pub handler : ℕ
  pub old_state : SessionState
  pub new_state : SessionState

pub record FixSession : Type 0 where
  pub config : FixSessionConfig
  pub state : SessionState
  pub seq_num_out : ℕ
  pub seq_num_in : ℕ
  pub message_handlers : Dict Text (List ℕ)
  pub state_handlers : List ℕ
  -- `_writer is not None`, `_reader is not None`
  pub writer : Bool
  pub reader : Bool
  pub running : Bool
  pub tasks : ℕ
  pub stats : SessionStats
  -- what was written to the transport, and which callbacks were called, the latest first
  pub written : List FixMessage
  pub notices : List Notice
  pub handled : List (ℕ × FixMessage)

-- What a call meets: `_time.monotonic()`, `_utc_timestamp()`, and whether `drain` goes well.
pub record Environment : Type 0 where
  pub monotonic : ℕ
  pub timestamp : Text
  pub drains : Bool

-- How a call ends: `RuntimeError("FIX session not connected")`, `UnicodeEncodeError`, an error of
-- the transport, or `ConnectionError` from `connect`.
pub data Outcome : Type 0 where
  done not_connected not_ascii transport_error connection_error : Outcome

unfoldable pub state_eq : SessionState → SessionState → Bool
state_eq disconnected disconnected = true
state_eq connecting connecting = true
state_eq logon_sent logon_sent = true
state_eq logged_on logged_on = true
state_eq logout_sent logout_sent = true
state_eq closing closing = true
state_eq _ _ = false

notify : List ℕ → SessionState → SessionState → List Notice → List Notice
notify [] old new notices = notices
notify (h ∷ hs) old new notices =
    notify hs old new (record { handler = h; old_state = old; new_state = new } ∷ notices)

-- `_transition`
unfoldable pub transition : SessionState → FixSession → FixSession
unfolding state_eq notify
transition new s =
    if state_eq new s.state
    then s
    else record s { state = new; notices = notify s.state_handlers s.state new s.notices }

-- `_send_raw` of an encoded message.
unfoldable pub send_raw : Environment → FixMessage → List ℕ → FixSession → Outcome × FixSession
send_raw env msg bytes s =
    if s.writer
    then if env.drains
      then (
        done,
        record s {
          written = msg ∷ s.written;
          stats = record (s.stats) {
            bytes_sent = s.stats.bytes_sent + length bytes;
            last_sent_time = env.monotonic;
          };
        },
      )
      else (transport_error, record s { written = msg ∷ s.written })
    else (not_connected, s)

-- `await self._send_raw(msg.encode())`
unfoldable pub send_encoded : Environment → FixMessage → FixSession → Outcome × FixSession
unfolding send_raw
send_encoded env msg s = elim (encode msg) [
  | none ↦ (not_ascii, s)
  | some bytes ↦ send_raw env msg bytes s
]

is_done : Outcome → Bool
is_done done = true
is_done _ = false

count_sent : FixSession → FixSession
count_sent s = record s { stats = record (s.stats) { messages_sent = s.stats.messages_sent + 1 } }

-- What follows a call only if it did not raise.
unfoldable pub and_then : (FixSession → FixSession) → Outcome × FixSession → Outcome × FixSession
unfolding is_done
and_then f (r, s) = if is_done r then (r, f s) else (r, s)

-- The message as `send` leaves it.
unfoldable pub stamp : Environment → FixSession → FixMessage → FixMessage
stamp env s msg =
    let stamped =
      put 34 (str_nat s.seq_num_out)
        (put 56 (s.config.target_comp_id) (put 49 (s.config.sender_comp_id) msg)) in
    if contains (pos 52) stamped then stamped else put 52 env.timestamp stamped

-- `send`
unfoldable pub send : Environment → FixMessage → FixSession → Outcome × FixSession
unfolding count_sent and_then send_encoded
send env msg s =
    and_then count_sent
      (send_encoded env (stamp env s msg) (record s { seq_num_out = s.seq_num_out + 1 }))

-- `_send_logon`
unfoldable pub send_logon : Environment → FixSession → Outcome × FixSession
unfolding count_sent and_then send_encoded transition
send_logon env s =
    let msg =
      logon (s.config.sender_comp_id) (s.config.target_comp_id) (pos s.seq_num_out)
        (pos (s.config.heart_bt_int)) (s.config.username) (s.config.password)
        (s.config.reset_seq_numbers) env.timestamp in
    and_then (λ t. transition logon_sent (count_sent t))
      (send_encoded env msg (record s { seq_num_out = s.seq_num_out + 1 }))

-- `_handle_admin`; the log lines of the other administrative types change nothing.
unfoldable pub handle_admin : Environment → FixMessage → FixSession → Outcome × FixSession
unfolding transition send
handle_admin env msg s =
    let type = msg_type msg in
    if text_eq type (codes "A")
    then (
      done,
      let t = transition logged_on s in
          record t { stats = record (t.stats) { login_time = env.monotonic } },
    )
    else if text_eq type (codes "5")
    then (done, transition logout_sent s)
    else if text_eq type (codes "0")
    then (done, record s { stats = record (s.stats) { last_heartbeat_received = env.monotonic } })
    else if text_eq type (codes "1")
    then send env
        (put 112 (get_or (pos 112) [] msg) (
          heartbeat (s.config.sender_comp_id) (s.config.target_comp_id) (pos s.seq_num_out)
            env.timestamp))
        s
    else (done, s)

abbrev pub admin_msg_types : List Text
admin_msg_types =
    codes "0" ∷ codes "1" ∷ codes "2" ∷ codes "3" ∷ codes "4" ∷ codes "5" ∷ codes "A" ∷ []

call_handlers : List ℕ → FixMessage → FixSession → FixSession
call_handlers [] msg s = s
call_handlers (h ∷ hs) msg s = call_handlers hs msg (record s { handled = (h, msg) ∷ s.handled })

-- `_dispatch`
unfoldable pub dispatch : Environment → FixMessage → FixSession → Outcome × FixSession
unfolding and_then call_handlers
dispatch env msg s =
    let type = msg_type msg in
    let handlers = get_or type [] s.message_handlers in
    and_then (call_handlers handlers msg)
      (if elem type admin_msg_types then handle_admin env msg s else (done, s))

-- One turn of `_heartbeat_loop`, after the sleep.
unfoldable pub heartbeat_turn : Environment → FixSession → FixSession
unfolding send is_done
heartbeat_turn env s =
    if state_eq s.state logged_on
    then (let (r, t) =
          send env
            (heartbeat (s.config.sender_comp_id) (s.config.target_comp_id) (pos s.seq_num_out)
              env.timestamp)
            s in
        if is_done r
        then record t { stats = record (t.stats) { last_heartbeat_sent = env.monotonic } }
        else record t { stats = record (t.stats) { errors = t.stats.errors + 1 } })
    else s
