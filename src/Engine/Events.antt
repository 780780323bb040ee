-- ===== src/Engine/Events.antt =====
-- `EventBus` of src/engine/events.py. Handlers are numbers; a call of one is recorded with its event,
-- the earliest first, and so is a task that is created for one. Handlers are taken to leave the bus
-- alone, and what they raise is swallowed. The data of an event is of any type.
pub mod Types
pub mod Replay
pub mod Handlers
pub mod Queue
use algo_engine.Prelude.{
  ℕ, ◌+◌, Bool, true, false, Option, none, some, List, [], ◌∷◌, ◌++◌, String, if◌then◌else◌, map,
  length,
}
use algo_engine.Prelude.Eq.{◌=?◌, nat_eq}
use algo_engine.Prelude.Int.{ℤ}
use algo_engine.Prelude.Dict.{Dict, get_or, insert}
use algo_engine.Engine.Events.Types.{EventType, event_type_eq}

pub record Event (A : Type 0) : Type 0 where
  pub event_type : EventType
  pub timestamp : ℕ
  pub payload : A
  pub symbol : Option String
  pub source : String
  pub priority : ℤ

-- The loop of `start`: not there, or waiting for an event.
pub data Loop : Type 0 where
  off waiting : Loop

pub record EventBus (A : Type 0) : Type 0 where
  pub handlers : Dict EventType (List ℕ)
  pub async_handlers : Dict EventType (List ℕ)
  pub global_handlers : List ℕ
  pub async_global_handlers : List ℕ
  pub event_queue : List (Event A)
  pub running : Bool
  pub loop : Loop
  pub called : List (ℕ × Event A)
  pub tasks : List (ℕ × Event A)

-- `list.remove` of a value that may be absent.
abbrev pub remove_first : ℕ → List ℕ → List ℕ
remove_first h [] = []
remove_first h (x ∷ xs) = if x =? h then xs else x ∷ remove_first h xs

-- `d[t].append(h)`, `d[t].remove(h)` and `d[t].clear()` on a `defaultdict(list)`.
abbrev pub add_to : EventType → ℕ → Dict EventType (List ℕ) → Dict EventType (List ℕ)
add_to t h d = insert t (get_or t [] d ++ (h ∷ [])) d

abbrev pub take_from : EventType → ℕ → Dict EventType (List ℕ) → Dict EventType (List ℕ)
take_from t h d = insert t (remove_first h (get_or t [] d)) d

abbrev pub empty_at : EventType → Dict EventType (List ℕ) → Dict EventType (List ℕ)
empty_at t d = insert t [] d

count_all : Dict EventType (List ℕ) → ℕ
count_all [] = 0
count_all ((_, hs) ∷ d) = length hs + count_all d

module _ {A : Type 0} where
  -- `EventBus.__init__`
  unfoldable pub new_bus : EventBus A
  new_bus = record {
    handlers = [];
    async_handlers = [];
    global_handlers = [];
    async_global_handlers = [];
    event_queue = [];
    running = false;
    loop = off;
    called = [];
    tasks = [];
  }

  unfoldable pub subscribe : EventType → ℕ → Bool → EventBus A → EventBus A
  subscribe t h true b = record b { async_handlers = add_to t h b.async_handlers }
  subscribe t h false b = record b { handlers = add_to t h b.handlers }

  unfoldable pub unsubscribe : EventType → ℕ → Bool → EventBus A → EventBus A
  unsubscribe t h true b = record b { async_handlers = take_from t h b.async_handlers }
  unsubscribe t h false b = record b { handlers = take_from t h b.handlers }

  unfoldable pub subscribe_all : ℕ → Bool → EventBus A → EventBus A
  subscribe_all h true b = record b { async_global_handlers = b.async_global_handlers ++ (h ∷ []) }
  subscribe_all h false b = record b { global_handlers = b.global_handlers ++ (h ∷ []) }

  unfoldable pub unsubscribe_all : ℕ → Bool → EventBus A → EventBus A
  unsubscribe_all h true b = record b {
    async_global_handlers = remove_first h b.async_global_handlers;
  }
  unsubscribe_all h false b = record b { global_handlers = remove_first h b.global_handlers }

  abbrev pub calls : Event A → List ℕ → List (ℕ × Event A)
  calls e hs = map (λ h. (h, e)) hs

  -- The calls that an event makes at once, and the tasks that it creates.
  abbrev pub calls_of : EventBus A → Event A → List (ℕ × Event A)
  calls_of b e = calls e (get_or e.event_type [] b.handlers) ++ calls e b.global_handlers

  abbrev pub tasks_of : EventBus A → Event A → List (ℕ × Event A)
  tasks_of b e =
      calls e (get_or e.event_type [] b.async_handlers) ++ calls e b.async_global_handlers

  unfoldable pub emit : Event A → EventBus A → EventBus A
  emit e b = record b { called = b.called ++ calls_of b e; tasks = b.tasks ++ tasks_of b e }

  unfoldable pub emit_async : Event A → EventBus A → EventBus A
  emit_async e b = record b { event_queue = b.event_queue ++ (e ∷ []) }

  -- `start` up to the first wait.
  unfoldable pub start : EventBus A → EventBus A
  start b = record b { running = true; loop = waiting }

  -- Back to the test of the loop.
  again : EventBus A → EventBus A
  again b = record b { loop = if b.running then waiting else off }

  -- The end of a wait: with the first event of the queue, or by the timeout when there is none.
  -- Whether the bus is still running is tested only afterwards.
  unfoldable pub turn : EventBus A → EventBus A
  unfolding emit again
  turn b = elim (b.loop) [
    | off ↦ b
    | waiting ↦ elim (b.event_queue) [
      | [] ↦ again b
      | e ∷ es ↦ again (emit e (record b { event_queue = es }))
    ]
  ]

  unfoldable pub stop : EventBus A → EventBus A
  stop b = record b { running = false }

  -- `clear_handlers`
  unfoldable pub clear_handlers : Option EventType → EventBus A → EventBus A
  clear_handlers (some t) b = record b {
    handlers = empty_at t b.handlers;
    async_handlers = empty_at t b.async_handlers;
  }
  clear_handlers none b = record b {
    handlers = [];
    async_handlers = [];
    global_handlers = [];
    async_global_handlers = [];
  }

  -- `get_handler_count`
  unfoldable pub get_handler_count : Option EventType → EventBus A → ℕ
  unfolding count_all
  get_handler_count (some t) b =
      length (get_or t [] b.handlers) + length (get_or t [] b.async_handlers)
  get_handler_count none b =
      length b.global_handlers
      + length b.async_global_handlers
      + count_all b.handlers
      + count_all b.async_handlers
