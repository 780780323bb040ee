-- ===== src/Fix/Session/Lifecycle.antt =====
-- Connecting and disconnecting in `FIXSession` (src/protocols/fix_handler.py), and the answer to a
-- test request.
use algo_engine.Prelude.{
  ℕ, zero, suc, ◌+◌, ◌-◌, ◌≡◌, refl, sym, ap, ◌∙◌, Bool, false, Option, none, some, [], ◌∷◌, arith,
  max,
}
use algo_engine.Prelude.Eq.{int_eq}
use algo_engine.Prelude.Int.{pos}
use algo_engine.Prelude.Dict.{lookup, get_or}
use algo_engine.Fix.Text.{Text, codes, str_nat, str_int, text_eq}
use algo_engine.Fix.Message.{FixMessage, msg_type}
use algo_engine.Fix.Message.Builders.{
  logout, logon, lookup-logout, lookup-logon, lookup-logon_type, heartbeat, put,
}
use algo_engine.Fix.Session.{
  FixSession, disconnected, connecting, logon_sent, logged_on, Environment, Outcome, done,
  connection_error, transition, send, handle_admin, stamp, send_logon, state_eq,
}
use algo_engine.Fix.Session.Numbers.{stamp_fields, stamp_other, send_done}
use algo_engine.Fix.Session.Connection.{
  connect, disconnect, try_connect, count_reconnect, say_logout, try_connect-IsSameButStats,
}

try_connect_fails :
    (opens : ℕ → Bool) (left attempt : ℕ) (s : FixSession)
    → ((i : ℕ) → opens i ≡ false)
    → let (up, t) = try_connect opens left attempt s in
      (up ≡ false) × (t.stats.reconnect_count ≡ s.stats.reconnect_count + left + 1)
unfolding try_connect
try_connect_fails opens zero attempt s h = ground (arith, h (attempt + 1))
try_connect_fails opens (suc left) attempt s h =
    ground
      (arith, h (attempt + 1), try_connect_fails opens left (attempt + 1) (count_reconnect s) h)

-- Where no attempt to open a connection succeeds, `connect` from DISCONNECTED tries
-- `max_reconnect_attempts` times, and once if that is 0, counts each of the attempts, raises
-- `ConnectionError`, and is in DISCONNECTED again with nothing written and no number used.
pub connect_fails :
    (opens : ℕ → Bool) (env : Environment) (s : FixSession)
    → ((i : ℕ) → opens i ≡ false)
    → s.state ≡ disconnected
    → let (r, t) = connect opens env s in
      (r ≡ connection_error)
      × (t.state ≡ disconnected)
      × (t.stats.reconnect_count
          ≡ s.stats.reconnect_count + max 1 (s.config.max_reconnect_attempts))
      × (t.written ≡ s.written)
      × (t.seq_num_out ≡ s.seq_num_out)
unfolding connect
connect_fails opens env s h e =
    let start = transition connecting s in
    let left = s.config.max_reconnect_attempts - 1 in
    ground
      (arith, try_connect_fails opens left 0 start h, try_connect-IsSameButStats opens left 0 start)

-- A call of `disconnect` that does not raise ends in DISCONNECTED, with no connection, no task and
-- nothing running, and it uses up no sequence number.
pub disconnect_done :
    (env : Environment) (reason : Text) (s : FixSession)
    → (disconnect env reason s).0 ≡ done
    → let t = (disconnect env reason s).1 in
      (t.state ≡ disconnected)
      × (t.writer ≡ false)
      × (t.running ≡ false)
      × (t.tasks ≡ 0)
      × (t.seq_num_out ≡ s.seq_num_out)
unfolding disconnect
disconnect_done env reason s h = ground arith

-- A logout that is sent carries the next number of the session and does not use it up.
say_logout_done :
    (env : Environment) (reason : Text) (s : FixSession)
    → s.state ≡ logged_on
    → (say_logout env reason s).0 ≡ done
    → (m : FixMessage) × (lookup (pos 34) m ≡ some (str_nat s.seq_num_out))
      × ((say_logout env reason s).1.written ≡ m ∷ s.written)
unfolding say_logout state_eq str_int
say_logout_done env reason s e h = (
  logout (s.config.sender_comp_id) (s.config.target_comp_id) (pos s.seq_num_out) reason
      env.timestamp,
  lookup-logout (s.config.sender_comp_id) (s.config.target_comp_id) (pos s.seq_num_out) reason
      env.timestamp,
  ground arith,
)

disconnect_frame :
    (env : Environment) (reason : Text) (s : FixSession)
    → (disconnect env reason s).0 ≡ done
    → let t = (disconnect env reason s).1 in
      ((say_logout env reason s).0 ≡ done)
      × (t.written ≡ (say_logout env reason s).1.written)
      × (t.state ≡ disconnected)
      × (t.seq_num_out ≡ s.seq_num_out)
unfolding disconnect
disconnect_frame env reason s h = ground arith

-- A `connect` that does not raise, from DISCONNECTED, has written a logon with the next number.
pub connect_done :
    (opens : ℕ → Bool) (env : Environment) (s : FixSession)
    → s.state ≡ disconnected
    → (connect opens env s).0 ≡ done
    → (m : FixMessage) × (lookup (pos 35) m ≡ some (codes "A"))
      × (lookup (pos 34) m ≡ some (str_nat s.seq_num_out))
      × ((connect opens env s).1.written ≡ m ∷ s.written)
      × ((connect opens env s).1.state ≡ logon_sent)
      × ((connect opens env s).1.seq_num_out ≡ s.seq_num_out + 1)
unfolding connect send_logon state_eq str_int
connect_done opens env s e h =
    let start = transition connecting s in
    let kept = try_connect-IsSameButStats opens (s.config.max_reconnect_attempts - 1) 0 start in
    let c = s.config in
    (
      logon (c.sender_comp_id) (c.target_comp_id) (pos s.seq_num_out) (pos (c.heart_bt_int))
          (c.username) (c.password) (c.reset_seq_numbers) env.timestamp,
      lookup-logon_type (c.sender_comp_id) (c.target_comp_id) (pos s.seq_num_out)
          (pos (c.heart_bt_int)) (c.username) (c.password) (c.reset_seq_numbers) env.timestamp,
      lookup-logon (c.sender_comp_id) (c.target_comp_id) (pos s.seq_num_out) (pos (c.heart_bt_int))
          (c.username) (c.password) (c.reset_seq_numbers) env.timestamp,
      ground arith,
      ground arith,
      ground arith,
    )

-- When a session that is logged on is disconnected and connected again, and neither call raises,
-- the logout and the next logon are written with the same sequence number.
pub logout_number_reused :
    (env env' : Environment) (reason : Text) (opens : ℕ → Bool) (s : FixSession)
    → s.state ≡ logged_on
    → (disconnect env reason s).0 ≡ done
    → (connect opens env' (disconnect env reason s).1).0 ≡ done
    → (goodbye : FixMessage) × (hello : FixMessage) × ((connect opens env'
          (disconnect env reason s).1).1.written
        ≡ hello ∷ goodbye ∷ s.written)
      × (lookup (pos 34) goodbye ≡ some (str_nat s.seq_num_out))
      × (lookup (pos 34) hello ≡ some (str_nat s.seq_num_out))
logout_number_reused env env' reason opens s on left back =
    let t = (disconnect env reason s).1 in
    let (said, w, down, n) = disconnect_frame env reason s left in
    let (goodbye, g, wg) = say_logout_done env reason s on said in
    let (hello, _, h, wh, _, _) = connect_done opens env' t down back in (goodbye, hello, cc, g, cc)

-- The heartbeat that answers a test request, before it is stamped.
abbrev reply_to : Environment → FixSession → Text → FixMessage
reply_to env s id = put 112 id (
    heartbeat (s.config.sender_comp_id) (s.config.target_comp_id) (pos s.seq_num_out) env.timestamp)

handle_admin_sends :
    (env : Environment) (msg : FixMessage) (s : FixSession) (id : Text)
    → msg_type msg ≡ codes "1"
    → lookup (pos 112) msg ≡ some id
    → handle_admin env msg s ≡ send env (reply_to env s id) s
unfolding handle_admin text_eq
handle_admin_sends env msg s id type req = rw type (rw (req, get_or) refl)

-- A test request that a connected session answers is answered by a heartbeat that carries the number
-- of the session and the request's own TestReqID.
pub handle_admin_test_request :
    (env : Environment) (msg : FixMessage) (s : FixSession) (id : Text)
    → msg_type msg ≡ codes "1"
    → lookup (pos 112) msg ≡ some id
    → (handle_admin env msg s).0 ≡ done
    → (reply : FixMessage) × ((handle_admin env msg s).1.written ≡ reply ∷ s.written)
      × (lookup (pos 112) reply ≡ some id)
      × (lookup (pos 34) reply ≡ some (str_nat s.seq_num_out))
      × (msg_type reply ≡ codes "0")
unfolding heartbeat msg_type
handle_admin_test_request env msg s id type req h =
    let answer = reply_to env s id in
    let sent = handle_admin_sends env msg s id type req in
    let finished = ap (λ (p : Outcome × FixSession). p.0) (sym sent) ∙ h in
    (
      stamp env s answer,
      ap (λ (p : Outcome × FixSession). p.1.written) sent ∙ (send_done env answer s finished).0,
      stamp_other env s answer (pos 112) refl refl refl refl,
      (stamp_fields env s answer).0,
      ap (λ (o : Option Text). elim o [ none ↦ [] | some t ↦ t ])
          (stamp_other env s answer (pos 35) refl refl refl refl),
    )
