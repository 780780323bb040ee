-- ===== src/Trading/LiveEngine/Reconnection/Attempts.antt =====
-- The attempts of a reconnection in src/trading/live_engine.py.
use algo_engine.Prelude.{
  ℕ, ◌≡◌, ◌≢◌, ◌∙◌, refl, sym, ap, Bool, true, false, Option, none, some, List, arith,
}
use algo_engine.Resilience.Exceptions.{Exception}
use algo_engine.Resilience.Retry.{returned, raised, Outcome, value}
use algo_engine.Resilience.Retry.Answers.{Answers, failed, answered, missed}
use algo_engine.Trading.Execution.{connected, disconnected}
use algo_engine.Trading.LiveEngine.{LiveEngine, healthy}
use algo_engine.Trading.LiveEngine.Connection.{connect_broker}
use algo_engine.Trading.LiveEngine.Reconnection.{
  Meanwhile, end_of, do_single_reconnect, reconnect_each, reconnecting,
}

-- Whether the broker takes the connection.
abbrev takes : Option Bool → Bool
takes (some true) = true
takes _ = false

takes_lem : (answer : Option Bool) → takes answer ≡ true → answer ≡ some true
takes_lem none h = cc
takes_lem (some true) h = refl
takes_lem (some false) h = cc

end_of-returned : (b a : Bool) → end_of b ≡ returned a → (b ≡ true) × (a ≡ true)
end_of-returned true a h = ground arith
end_of-returned false a h = ground arith

end_of-raised : (b : Bool) {x : Exception} → end_of b ≡ raised x → b ≡ false
end_of-raised true h = ground arith
end_of-raised false h = refl

module _ {S D : Type 0} where
  pub record IsUp (e : LiveEngine S D) : Type 0 where
    pub broker : e.execution.broker ≡ connected
    pub connection : e.is_connected ≡ true
    pub health : e.health ≡ healthy

  pub record IsDown (e : LiveEngine S D) : Type 0 where
    pub broker : e.execution.broker ≡ disconnected
    pub connection : e.is_connected ≡ false

  do_single_reconnect-end_of :
      (answer : Option Bool) (e : LiveEngine S D)
      → IsDown e
      → (do_single_reconnect answer e).0 ≡ end_of (takes answer)
  unfolding do_single_reconnect connect_broker
  do_single_reconnect-end_of none e h = rw h.broker refl
  do_single_reconnect-end_of (some true) e h = rw h.broker refl
  do_single_reconnect-end_of (some false) e h = rw h.broker refl

  do_single_reconnect-IsDown :
      (answer : Option Bool) (e : LiveEngine S D)
      → IsDown e
      → takes answer ≡ false
      → IsDown (do_single_reconnect answer e).1
  unfolding do_single_reconnect connect_broker
  do_single_reconnect-IsDown none e h no_answer = record {
    broker = rw h.broker refl;
    connection = rw h.broker refl;
  }
  do_single_reconnect-IsDown (some true) e h refuses = cc
  do_single_reconnect-IsDown (some false) e h refuses = record {
    broker = rw h.broker refl;
    connection = rw h.broker refl;
  }

  do_single_reconnect-IsUp :
      (answer : Option Bool) (e : LiveEngine S D)
      → IsDown e
      → takes answer ≡ true
      → IsUp (do_single_reconnect answer e).1
  unfolding do_single_reconnect connect_broker
  do_single_reconnect-IsUp none e h accepts = cc
  do_single_reconnect-IsUp (some false) e h accepts = cc
  do_single_reconnect-IsUp (some true) e h accepts = record {
    broker = rw h.broker refl;
    connection = rw h.broker refl;
    health = rw h.broker refl;
  }

  -- How the reconnection ends: some attempt is taken and its value comes out, or none is.
  pub data Ends (answers : ℕ → Option Bool) (o : Outcome Bool) (e : LiveEngine S D) : Type 0 where
    up : (n : ℕ) → answers n ≡ some true → o ≡ value true → IsUp e → Ends answers o e
    down : ((a : Bool) → o ≢ value a) → IsDown e → Ends answers o e

  -- The attempts of an engine that is down, `first` when they begin.
  pub reconnect_each-Ends :
      (w : Meanwhile) (answers : ℕ → Option Bool) (first : LiveEngine S D)
      → IsDown first
      → {o : Outcome Bool} {ns : List ℕ} → Answers (reconnecting w answers first) o ns
      → (e : LiveEngine S D) → IsDown e
      → Ends answers o (reconnect_each answers ns e)
  unfolding reconnecting reconnect_each
  reconnect_each-Ends w answers first d (failed h) e k = down h k
  reconnect_each-Ends w answers first d (answered n a h) e k =
      let (accepts, yields) =
        end_of-returned (takes (answers n)) a
          (sym (do_single_reconnect-end_of (answers n) first d) ∙ h) in
      up n (takes_lem (answers n) accepts) (ap value yields)
        (do_single_reconnect-IsUp (answers n) e k accepts)
  reconnect_each-Ends w answers first d (missed n x h rest) e k =
      let refuses =
        end_of-raised (takes (answers n))
          (sym (do_single_reconnect-end_of (answers n) first d) ∙ h) in
      reconnect_each-Ends w answers first d rest _
        (do_single_reconnect-IsDown (answers n) e k refuses)
