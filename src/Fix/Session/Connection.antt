-- ===== src/Fix/Session/Connection.antt =====
-- Connecting, reading and disconnecting in `FIXSession` (src/protocols/fix_handler.py), and the
-- registration of callbacks. Whether the n-th attempt to open a connection succeeds is an argument;
-- so is what `read` returns. A dispatched message is handled in a task of its own, so `read_turn`
-- returns the messages and leaves their handling to the schedule.
use algo_engine.Prelude.{
  ℕ, zero, suc, ◌+◌, ◌-◌, ◌≡◌, Bool, true, false, ◌||◌, none, some, List, [], ◌∷◌, ◌++◌, arith,
  if◌then◌else◌, ◌==◌, length,
}
use algo_engine.Prelude.Eq.{nat_eq, elem}
use algo_engine.Prelude.Int.{pos}
use algo_engine.Prelude.Dict.{lookup, get_or, insert}
use algo_engine.Fix.Text.{Text, text_key_eq}
use algo_engine.Fix.Message.{FixMessage}
use algo_engine.Fix.Message.Builders.{logout}
use algo_engine.Fix.Framing.{process_buffer}
use algo_engine.Fix.Session.{
  FixSession, FixSessionConfig, disconnected, connecting, logon_sent, logged_on, logout_sent,
  closing, SessionStats, Environment, Outcome, done, connection_error, state_eq, transition,
  send_encoded, and_then, send_logon,
}

abbrev zero_stats : SessionStats
zero_stats = record {
  messages_sent = 0;
  messages_received = 0;
  bytes_sent = 0;
  bytes_received = 0;
  last_sent_time = 0;
  last_received_time = 0;
  last_heartbeat_sent = 0;
  last_heartbeat_received = 0;
  reconnect_count = 0;
  errors = 0;
  login_time = 0;
}

-- `FIXSession.__init__`
unfoldable pub new_session : FixSessionConfig → FixSession
new_session config = record {
  config = config;
  state = disconnected;
  seq_num_out = 1;
  seq_num_in = 1;
  message_handlers = [];
  state_handlers = [];
  writer = false;
  reader = false;
  running = false;
  tasks = 0;
  stats = zero_stats;
  written = [];
  notices = [];
  handled = [];
}

add_new : ℕ → List ℕ → List ℕ
add_new h hs = if elem h hs then hs else hs ++ (h ∷ [])

-- `on_message`
unfoldable pub on_message : Text → ℕ → FixSession → FixSession
unfolding add_new
on_message type h s = record s {
  message_handlers = insert type (add_new h (get_or type [] s.message_handlers)) s.message_handlers;
}

-- `on_state_change`
unfoldable pub on_state_change : ℕ → FixSession → FixSession
unfolding add_new
on_state_change h s = record s { state_handlers = add_new h s.state_handlers }

remove_first : ℕ → List ℕ → List ℕ
remove_first h [] = []
remove_first h (x ∷ xs) = if x == h then xs else x ∷ remove_first h xs

-- `remove_handler`
unfoldable pub remove_handler : Text → ℕ → FixSession → FixSession
unfolding remove_first
remove_handler type h s = elim (lookup type s.message_handlers) [
  | none ↦ s
  | some hs ↦ record s { message_handlers = insert type (remove_first h hs) s.message_handlers }
]

pub count_reconnect : FixSession → FixSession
count_reconnect s = record s {
  stats = record (s.stats) { reconnect_count = s.stats.reconnect_count + 1 };
}

-- The `while True` of `connect`, from the attempt after `attempt` on; `left` attempts are allowed
-- before the one whose failure is final. Whether it ended connected.
unfoldable pub try_connect : (ℕ → Bool) → ℕ → ℕ → FixSession → Bool × FixSession
unfolding count_reconnect
try_connect opens zero attempt s =
    if opens (attempt + 1) then (true, s) else (false, count_reconnect s)
try_connect opens (suc left) attempt s =
    let later = try_connect opens left (attempt + 1) (count_reconnect s) in
    if opens (attempt + 1) then (true, s) else later

abbrev start_tasks : FixSession → FixSession
start_tasks s = record s { writer = true; reader = true; running = true; tasks = s.tasks + 2 }

-- `connect`: the failure of attempt `max_reconnect_attempts`, or of the first if that is 0, is
-- final.
unfoldable pub connect : (ℕ → Bool) → Environment → FixSession → Outcome × FixSession
unfolding transition try_connect send_logon
connect opens env s =
    if state_eq s.state disconnected
    then (let (open_now, t) =
          try_connect opens (s.config.max_reconnect_attempts - 1) 0 (transition connecting s) in
        if open_now
        then send_logon env (start_tasks t)
        else (connection_error, transition disconnected t))
    else (done, s)

-- `disconnect` up to the cancelling of the tasks: a failure to send the logout ends it.
unfoldable pub say_logout : Environment → Text → FixSession → Outcome × FixSession
unfolding state_eq send_encoded and_then transition
say_logout env reason s =
    if state_eq s.state logged_on || state_eq s.state logon_sent
    then and_then (transition logout_sent) (
        send_encoded env
          (logout (s.config.sender_comp_id) (s.config.target_comp_id) (pos s.seq_num_out) reason
            env.timestamp)
          s)
    else (done, s)

-- The end of `disconnect`. The reading task, when it is cancelled, goes to DISCONNECTED itself,
-- which is where this goes.
unfoldable pub close_down : FixSession → FixSession
unfolding transition
close_down s = transition disconnected (
    let t = transition closing (record s { running = false }) in
    record t { tasks = 0; writer = false; reader = false })

-- `disconnect`
unfoldable pub disconnect : Environment → Text → FixSession → Outcome × FixSession
unfolding say_logout close_down and_then
disconnect env reason s = and_then close_down (say_logout env reason s)

-- One turn of `_read_loop` on what `read` returned, with the buffer before and after, and the
-- messages to dispatch. No bytes mean that the other side has closed.
unfoldable pub read_turn :
    Environment → List ℕ → List ℕ → FixSession → (List FixMessage × List ℕ) × FixSession
unfolding transition
read_turn env [] buffer s = (([], buffer), transition disconnected (record s { running = false }))
read_turn env (c ∷ chunk) buffer s =
    let (msgs, left) = process_buffer (buffer ++ (c ∷ chunk)) in
    (
      (msgs, left),
      record s {
        stats = record (s.stats) {
          bytes_received = s.stats.bytes_received + length (c ∷ chunk);
          messages_received = s.stats.messages_received + length msgs;
          last_received_time = elim msgs [
            | [] ↦ s.stats.last_received_time
            | m ∷ ms ↦ env.monotonic
          ];
        };
      },
    )

-- Attempts to connect change only the count of reconnections.
pub record IsSameButStats (s t : FixSession) : Type 0 where
  pub config : t.config ≡ s.config
  pub state : t.state ≡ s.state
  pub seq_num_out : t.seq_num_out ≡ s.seq_num_out
  pub seq_num_in : t.seq_num_in ≡ s.seq_num_in
  pub state_handlers : t.state_handlers ≡ s.state_handlers
  pub written : t.written ≡ s.written
  pub notices : t.notices ≡ s.notices
  pub writer : t.writer ≡ s.writer

pub try_connect-IsSameButStats :
    (opens : ℕ → Bool) (left attempt : ℕ) (s : FixSession)
    → IsSameButStats s (try_connect opens left attempt s).1
unfolding try_connect
try_connect-IsSameButStats opens zero attempt s = ground arith
try_connect-IsSameButStats opens (suc left) attempt s =
    ground (arith, try_connect-IsSameButStats opens left (attempt + 1) (count_reconnect s))
