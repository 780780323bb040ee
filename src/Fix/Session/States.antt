-- ===== src/Fix/Session/States.antt =====
-- The states of `FIXSession` (src/protocols/fix_handler.py) and what its callbacks are told.
use algo_engine.Prelude.{ℕ, ◌-◌, ◌≡◌, refl, ◌∙◌, Bool, List, [], ◌∷◌, arith}
use algo_engine.Fix.Text.{Text, text_key_eq}
use algo_engine.Prelude.Dict.{get_or}
use algo_engine.Fix.Message.{FixMessage, msg_type}
use algo_engine.Fix.Session.{
  FixSession, FixSessionConfig, connecting, Environment, transition, send, handle_admin, dispatch,
  heartbeat_turn,
}
use algo_engine.Fix.Session.{call_handlers}
use algo_engine.Fix.Session.Connection.{
  new_session, on_message, on_state_change, remove_handler, connect, disconnect, read_turn,
  try_connect-IsSameButStats,
}

-- Everything that can happen to a session: calls of its methods, and the turns of its tasks.
pub data Event : Type 0 where
  call_connect : (ℕ → Bool) → Environment → Event
  call_disconnect : Environment → Text → Event
  call_send : Environment → FixMessage → Event
  handle_message : Environment → FixMessage → Event
  beat : Environment → Event
  read_bytes : Environment → List ℕ → List ℕ → Event
  add_handler : Text → ℕ → Event
  drop_handler : Text → ℕ → Event
  add_state_handler : ℕ → Event

pub happen : Event → FixSession → FixSession
happen (call_connect opens env) s = (connect opens env s).1
happen (call_disconnect env reason) s = (disconnect env reason s).1
happen (call_send env msg) s = (send env msg s).1
happen (handle_message env msg) s = (dispatch env msg s).1
happen (beat env) s = heartbeat_turn env s
happen (read_bytes env chunk buffer) s = (read_turn env chunk buffer s).1
happen (add_handler type h) s = on_message type h s
happen (drop_handler type h) s = remove_handler type h s
happen (add_state_handler h) s = on_state_change h s

pub run : List Event → FixSession → FixSession
run [] s = s
run (e ∷ es) s = run es (happen e s)

call_handlers-seq_num_in :
    (hs : List ℕ) (msg : FixMessage) (s : FixSession)
    → (call_handlers hs msg s).seq_num_in ≡ s.seq_num_in
unfolding call_handlers
call_handlers-seq_num_in [] msg s = refl
call_handlers-seq_num_in (h ∷ hs) msg s =
    call_handlers-seq_num_in hs msg (record s { handled = (h, msg) ∷ s.handled })

send-seq_num_in :
    (env : Environment) (msg : FixMessage) (s : FixSession)
    → (send env msg s).1.seq_num_in ≡ s.seq_num_in
unfolding send
send-seq_num_in env msg s = ground arith

handle_admin-seq_num_in :
    (env : Environment) (msg : FixMessage) (s : FixSession)
    → (handle_admin env msg s).1.seq_num_in ≡ s.seq_num_in
unfolding handle_admin
handle_admin-seq_num_in env msg s = grind (arith, send-seq_num_in)

dispatch-seq_num_in :
    (env : Environment) (msg : FixMessage) (s : FixSession)
    → (dispatch env msg s).1.seq_num_in ≡ s.seq_num_in
unfolding dispatch
dispatch-seq_num_in env msg s =
    let handlers = get_or (msg_type msg) [] s.message_handlers in
    ground (
      arith,
      handle_admin-seq_num_in env msg s,
      call_handlers-seq_num_in handlers msg (handle_admin env msg s).1,
      call_handlers-seq_num_in handlers msg s,
    )

-- No operation touches the incoming number.
happen-seq_num_in : (e : Event) (s : FixSession) → (happen e s).seq_num_in ≡ s.seq_num_in
unfolding happen connect disconnect heartbeat_turn read_turn on_message remove_handler
    on_state_change
happen-seq_num_in (call_connect opens env) s =
    let t = transition connecting s in
    ground (arith, try_connect-IsSameButStats opens (s.config.max_reconnect_attempts - 1) 0 t)
happen-seq_num_in (call_disconnect env reason) s = ground arith
happen-seq_num_in (call_send env msg) s = send-seq_num_in env msg s
happen-seq_num_in (handle_message env msg) s = dispatch-seq_num_in env msg s
happen-seq_num_in (beat env) s = ground arith
happen-seq_num_in (read_bytes env [] buffer) s = ground arith
happen-seq_num_in (read_bytes env (c ∷ chunk) buffer) s = ground arith
happen-seq_num_in (add_handler type h) s = ground arith
happen-seq_num_in (drop_handler type h) s = ground arith
happen-seq_num_in (add_state_handler h) s = ground arith

run-seq_num_in : (es : List Event) (s : FixSession) → (run es s).seq_num_in ≡ s.seq_num_in
unfolding run
run-seq_num_in [] s = refl
run-seq_num_in (e ∷ es) s = run-seq_num_in es (happen e s) ∙ happen-seq_num_in e s

-- Whatever happens to a new session, its incoming sequence number stays at 1.
pub run-new_session-seq_num_in :
    (config : FixSessionConfig) (es : List Event) → (run es (new_session config)).seq_num_in ≡ 1
unfolding new_session
run-new_session-seq_num_in config es = run-seq_num_in es (new_session config)
