-- ===== src/Engine/Events/Handlers.antt =====
-- The subscriptions of `EventBus` (src/engine/events.py) beside an abstract list of them.
use algo_engine.Prelude.{
  ℕ, ◌≡◌, refl, sym, ap, ◌∙◌, true, false, none, some, List, [], ◌∷◌, ◌++◌, if◌then◌else◌,
}
use algo_engine.Prelude.Eq.{◌=?◌, nat_eq}
use algo_engine.Prelude.Dict.{get_or}
use algo_engine.Engine.Events.Types.{EventType, event_type_eq}
use algo_engine.Engine.Events.{
  Event, EventBus, new_bus, subscribe, unsubscribe, subscribe_all, unsubscribe_all, clear_handlers,
  emit, remove_first, calls,
}
use algo_engine.Engine.Events.Replay.{
  Key, pick, pick-append, pick-remove_one, pick-remove_if, get_or-insert, get_or-change, is_typed,
  Change, amend, replay, key_eq, clear_type, remove_handler, global, add_handler, typed, clear_all,
}

module _ {A : Type 0} where
  pub change : Change → EventBus A → EventBus A
  change (add_handler (typed t a) h) b = subscribe t h a b
  change (add_handler (global a) h) b = subscribe_all h a b
  change (remove_handler (typed t a) h) b = unsubscribe t h a b
  change (remove_handler (global a) h) b = unsubscribe_all h a b
  change (clear_type t) b = clear_handlers (some t) b
  change clear_all b = clear_handlers none b

  unfoldable pub change_all : List Change → EventBus A → EventBus A
  unfolding change
  change_all [] b = b
  change_all (c ∷ cs) b = change_all cs (change c b)

  -- The list of a key in the bus.
  abbrev held : Key → EventBus A → List ℕ
  held (typed t true) b = get_or t [] b.async_handlers
  held (typed t false) b = get_or t [] b.handlers
  held (global true) b = b.async_global_handlers
  held (global false) b = b.global_handlers

  held-add :
      (j k : Key) (h : ℕ) (b : EventBus A)
      → held k (change (add_handler j h) b) ≡ (if j =? k then held k b ++ (h ∷ []) else held k b)
  unfolding change subscribe subscribe_all
  held-add (typed t true) (typed u true) h b =
      get_or-change (λ l. l ++ (h ∷ [])) t u b.async_handlers
  held-add (typed t true) (typed u false) h b = refl
  held-add (typed t true) (global true) h b = refl
  held-add (typed t true) (global false) h b = refl
  held-add (typed t false) (typed u true) h b = refl
  held-add (typed t false) (typed u false) h b = get_or-change (λ l. l ++ (h ∷ [])) t u b.handlers
  held-add (typed t false) (global true) h b = refl
  held-add (typed t false) (global false) h b = refl
  held-add (global true) (typed u true) h b = refl
  held-add (global true) (typed u false) h b = refl
  held-add (global true) (global true) h b = refl
  held-add (global true) (global false) h b = refl
  held-add (global false) (typed u true) h b = refl
  held-add (global false) (typed u false) h b = refl
  held-add (global false) (global true) h b = refl
  held-add (global false) (global false) h b = refl

  held-remove :
      (j k : Key) (h : ℕ) (b : EventBus A)
      → held k (change (remove_handler j h) b)
        ≡ (if j =? k then remove_first h (held k b) else held k b)
  unfolding change unsubscribe unsubscribe_all
  held-remove (typed t true) (typed u true) h b =
      get_or-change (remove_first h) t u b.async_handlers
  held-remove (typed t true) (typed u false) h b = refl
  held-remove (typed t true) (global true) h b = refl
  held-remove (typed t true) (global false) h b = refl
  held-remove (typed t false) (typed u true) h b = refl
  held-remove (typed t false) (typed u false) h b = get_or-change (remove_first h) t u b.handlers
  held-remove (typed t false) (global true) h b = refl
  held-remove (typed t false) (global false) h b = refl
  held-remove (global true) (typed u true) h b = refl
  held-remove (global true) (typed u false) h b = refl
  held-remove (global true) (global true) h b = refl
  held-remove (global true) (global false) h b = refl
  held-remove (global false) (typed u true) h b = refl
  held-remove (global false) (typed u false) h b = refl
  held-remove (global false) (global true) h b = refl
  held-remove (global false) (global false) h b = refl

  held-clear_type :
      (t : EventType) (k : Key) (b : EventBus A)
      → held k (change (clear_type t) b) ≡ (if is_typed t k then [] else held k b)
  unfolding change clear_handlers
  held-clear_type t (typed u true) b = get_or-insert t u [] b.async_handlers
  held-clear_type t (typed u false) b = get_or-insert t u [] b.handlers
  held-clear_type t (global true) b = refl
  held-clear_type t (global false) b = refl

  held-clear_all : (k : Key) (b : EventBus A) → held k (change clear_all b) ≡ []
  unfolding change clear_handlers
  held-clear_all (typed u true) b = refl
  held-clear_all (typed u false) b = refl
  held-clear_all (global true) b = refl
  held-clear_all (global false) b = refl

  -- The bus holds for each key what the list does.
  abbrev Agrees : EventBus A → List (Key × ℕ) → Type 0
  Agrees b s = (k : Key) → held k b ≡ pick k s

  change-Agrees :
      (c : Change) (b : EventBus A) (s : List (Key × ℕ))
      → Agrees b s
      → Agrees (change c b) (amend c s)
  change-Agrees (add_handler j h) b s e k =
      held-add j k h b
      ∙ ap (λ l. if j =? k then l ++ (h ∷ []) else l) (e k)
      ∙ sym (pick-append k j h s)
  change-Agrees (remove_handler j h) b s e k =
      held-remove j k h b
      ∙ ap (λ l. if j =? k then remove_first h l else l) (e k)
      ∙ sym (pick-remove_one k j h s)
  change-Agrees (clear_type t) b s e k =
      held-clear_type t k b
      ∙ ap (λ l. if is_typed t k then [] else l) (e k)
      ∙ sym (pick-remove_if (is_typed t) k s)
  change-Agrees clear_all b s e k = held-clear_all k b

  change_all-Agrees :
      (cs : List Change) (b : EventBus A) (s : List (Key × ℕ))
      → Agrees b s
      → Agrees (change_all cs b) (replay cs s)
  unfolding change_all replay
  change_all-Agrees [] b s e = e
  change_all-Agrees (c ∷ cs) b s e =
      change_all-Agrees cs (change c b) (amend c s) (change-Agrees c b s e)

new_bus-Agrees : (A : Type 0) → Agrees (new_bus {A = A}) []
unfolding new_bus
new_bus-Agrees A (typed t true) = refl
new_bus-Agrees A (typed t false) = refl
new_bus-Agrees A (global true) = refl
new_bus-Agrees A (global false) = refl

module _ {A : Type 0} where
  -- After any subscriptions, cancellations and clearings on a new bus, an event calls the handlers
  -- that the list of subscriptions has for its type and then those that it has for all events, and
  -- creates tasks for the async ones likewise, each in the order of subscription, and so often as it
  -- is subscribed.
  pub emit-replay :
      (cs : List Change) (e : Event A)
      → let b = change_all cs new_bus in
        let s = replay cs [] in
        ((emit e b).called
          ≡ b.called
            ++ (calls e (pick (typed e.event_type false) s) ++ calls e (pick (global false) s)))
        × ((emit e b).tasks
            ≡ b.tasks
              ++ (calls e (pick (typed e.event_type true) s) ++ calls e (pick (global true) s)))
  unfolding emit
  emit-replay cs e =
      let b = change_all cs new_bus in
      let same = change_all-Agrees cs new_bus [] (new_bus-Agrees A) in
      (
        ap (λ l. b.called ++ (calls e l ++ calls e b.global_handlers))
              (same (typed e.event_type false))
            ∙ ap
                (λ l.
                  b.called
                  ++ (calls e (pick (typed e.event_type false) (replay cs [])) ++ calls e l))
                (same (global false)),
        ap (λ l. b.tasks ++ (calls e l ++ calls e b.async_global_handlers))
              (same (typed e.event_type true))
            ∙ ap
                (λ l.
                  b.tasks ++ (calls e (pick (typed e.event_type true) (replay cs [])) ++ calls e l))
                (same (global true)),
      )
