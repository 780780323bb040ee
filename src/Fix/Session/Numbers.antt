-- ===== src/Fix/Session/Numbers.antt =====
-- Sequence numbers of `FIXSession` (src/protocols/fix_handler.py).
use algo_engine.Prelude.{
  ℕ, zero, suc, ◌+◌, ◌≡◌, ◌≢◌, refl, sym, subst, ap, ◌∙◌, false, some, List, [], ◌∷◌, arith, length,
  All, Bool-cases, inl, inr,
}
use algo_engine.Prelude.Eq.{◌=?◌, int_eq}
use algo_engine.Prelude.Int.{ℤ, pos}
use algo_engine.Prelude.Dict.{lookup, lookup-insert, contains}
use algo_engine.Fix.Text.{str_nat}
use algo_engine.Fix.Message.{FixMessage}
use algo_engine.Fix.Message.Builders.{put}
use algo_engine.Fix.Session.{FixSession, Environment, Outcome, done, stamp, send}

-- The message that `send` writes carries the session's next number and its two parties.
pub stamp_fields :
    (env : Environment) (s : FixSession) (msg : FixMessage)
    → (lookup (pos 34) (stamp env s msg) ≡ some (str_nat s.seq_num_out))
      × (lookup (pos 49) (stamp env s msg) ≡ some (s.config.sender_comp_id))
      × (lookup (pos 56) (stamp env s msg) ≡ some (s.config.target_comp_id))
unfolding stamp
stamp_fields env s msg =
    let a = put 49 (s.config.sender_comp_id) msg in
    let b = put 56 (s.config.target_comp_id) a in
    let c = put 34 (str_nat s.seq_num_out) b in
    let at = λ (j : ℤ). lookup-insert (pos 52) j env.timestamp c in
    let number = lookup-insert (pos 34) (pos 34) (str_nat s.seq_num_out) b in
    let target =
      lookup-insert (pos 34) (pos 56) (str_nat s.seq_num_out) b
      ∙ lookup-insert (pos 56) (pos 56) (s.config.target_comp_id) a in
    let sender =
      lookup-insert (pos 34) (pos 49) (str_nat s.seq_num_out) b
      ∙ lookup-insert (pos 56) (pos 49) (s.config.target_comp_id) a
      ∙ lookup-insert (pos 49) (pos 49) (s.config.sender_comp_id) msg in
    elim (Bool-cases (contains (pos 52) c)) [
      | inl e ↦ rw e (number, sender, target)
      | inr e ↦ rw e (at (pos 34) ∙ number, at (pos 49) ∙ sender, at (pos 56) ∙ target)
    ]

-- A call of `send` uses up the number on every path.
pub send_number :
    (env : Environment) (msg : FixMessage) (s : FixSession)
    → (send env msg s).1.seq_num_out ≡ s.seq_num_out + 1
unfolding send
send_number env msg s = ground arith

pub send_done :
    (env : Environment) (msg : FixMessage) (s : FixSession)
    → (send env msg s).0 ≡ done
    → ((send env msg s).1.written ≡ stamp env s msg ∷ s.written)
      × ((send env msg s).1.stats.messages_sent ≡ s.stats.messages_sent + 1)
unfolding send
send_done env msg s e = ground arith

-- Without a connection, `send` raises, writes nothing and counts nothing as sent, and still uses up
-- a sequence number.
pub send_unconnected :
    (env : Environment) (msg : FixMessage) (s : FixSession)
    → s.writer ≡ false
    → let (r, t) = send env msg s in
      (r ≢ done)
      × (t.written ≡ s.written)
      × (t.stats.messages_sent ≡ s.stats.messages_sent)
      × (t.seq_num_out ≡ s.seq_num_out + 1)
unfolding send
send_unconnected env msg s e = ground arith

-- Messages sent one after the other, each with its environment.
unfoldable pub send_each : List (Environment × FixMessage) → FixSession → List Outcome × FixSession
send_each [] s = ([], s)
send_each ((env, m) ∷ ms) s =
    let (r, t) = send env m s in let (rs, u) = send_each ms t in (r ∷ rs, u)

-- `l` is `base` with `k` messages before it, the oldest with number `lo`, each newer one with the
-- next.
pub Numbered : ℕ → ℕ → List FixMessage → List FixMessage → Type 0
Numbered lo zero l base = l ≡ base
Numbered lo (suc k) l base =
    (m : FixMessage) × (l' : List FixMessage) × (l ≡ m ∷ l')
    × (lookup (pos 34) m ≡ some (str_nat (lo + k)))
    × Numbered lo k l' base

Numbered-shift :
    (k lo : ℕ) (l : List FixMessage) (m : FixMessage) (base : List FixMessage)
    → lookup (pos 34) m ≡ some (str_nat lo)
    → Numbered (lo + 1) k l (m ∷ base)
    → Numbered lo (suc k) l base
unfolding Numbered
Numbered-shift zero lo l m base h e =
    let same : lo + 0 ≡ lo = omega arith in
    (m, base, e, h ∙ ap (λ n. some (str_nat n)) (sym same), refl)
Numbered-shift (suc k) lo l m base h (x, l', e, n, rest) =
    let same : lo + 1 + k ≡ lo + suc k = omega arith in
    (x, l', e, n ∙ ap (λ i. some (str_nat i)) same, Numbered-shift k lo l' m base h rest)

-- When every call of `send` succeeds, the messages written carry the session's number and those
-- after it, in the order of the calls, and the session goes on with the next.
pub send_each-Numbered :
    (ms : List (Environment × FixMessage)) (s : FixSession)
    → All (λ r. r ≡ done) (send_each ms s).0
    → let t = (send_each ms s).1 in
      Numbered s.seq_num_out (length ms) t.written s.written
      × (t.seq_num_out ≡ s.seq_num_out + length ms)
unfolding send_each Numbered
send_each-Numbered [] s h = (refl, omega arith)
send_each-Numbered ((env, m) ∷ ms) s (e, h) =
    let t = (send env m s).1 in
    let u = (send_each ms t).1 in
    let (rest, last) = send_each-Numbered ms t h in
    let next = send_number env m s in
    (
      Numbered-shift (length ms) s.seq_num_out u.written (stamp env s m) s.written
          (stamp_fields env s m).0
          (subst (λ n. Numbered n (length ms) u.written (stamp env s m ∷ s.written)) next
            (subst (λ w. Numbered t.seq_num_out (length ms) u.written w) (send_done env m s e).0
              rest)),
      omega arith,
    )

-- Every field but the number, the parties and the sending time is the caller's.
pub stamp_other :
    (env : Environment) (s : FixSession) (msg : FixMessage) (j : ℤ)
    → (pos 34 =? j) ≡ false
    → (pos 49 =? j) ≡ false
    → (pos 56 =? j) ≡ false
    → (pos 52 =? j) ≡ false
    → lookup j (stamp env s msg) ≡ lookup j msg
unfolding stamp
stamp_other env s msg j h34 h49 h56 h52 =
    let a = put 49 (s.config.sender_comp_id) msg in
    let b = put 56 (s.config.target_comp_id) a in
    let c = put 34 (str_nat s.seq_num_out) b in
    ground (
      arith,
      lookup-insert (pos 49) j (s.config.sender_comp_id) msg,
      lookup-insert (pos 56) j (s.config.target_comp_id) a,
      lookup-insert (pos 34) j (str_nat s.seq_num_out) b,
      lookup-insert (pos 52) j env.timestamp c,
    )
