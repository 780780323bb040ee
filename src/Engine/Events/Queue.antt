-- ===== src/Engine/Events/Queue.antt =====
-- The queue of `EventBus` (src/engine/events.py) and the loop that empties it.
use algo_engine.Prelude.{
  ℕ, ◌≡◌, refl, sym, ap, ap₂, subst, ◌∙◌, List, [], ◌∷◌, ◌++◌, arith, append_assoc, append-nil,
}
use algo_engine.Engine.Events.Types.{event_type_eq}
use algo_engine.Engine.Events.{
  Event, EventBus, Loop, off, waiting, emit_async, turn, stop, start, calls_of, tasks_of,
}

-- What happens to the queue: an event is put, a wait ends, or the bus is stopped or started.
pub data Step (A : Type 0) : Type 0 where
  put : Event A → Step A
  end_wait : Step A
  stop_bus : Step A
  start_bus : Step A

module _ {A : Type 0} where
  abbrev pub take_step : Step A → EventBus A → EventBus A
  take_step (put e) b = emit_async e b
  take_step end_wait b = turn b
  take_step stop_bus b = stop b
  take_step start_bus b = start b

  unfoldable pub run : List (Step A) → EventBus A → EventBus A
  run [] b = b
  run (s ∷ ss) b = run ss (take_step s b)

  -- The events put, in order.
  abbrev pub puts : List (Step A) → List (Event A)
  puts [] = []
  puts (put e ∷ ss) = e ∷ puts ss
  puts (end_wait ∷ ss) = puts ss
  puts (stop_bus ∷ ss) = puts ss
  puts (start_bus ∷ ss) = puts ss

  -- The calls that a list of events makes on a bus, and the tasks.
  abbrev pub all_calls : EventBus A → List (Event A) → List (ℕ × Event A)
  all_calls b [] = []
  all_calls b (e ∷ es) = calls_of b e ++ all_calls b es

  abbrev pub all_tasks : EventBus A → List (Event A) → List (ℕ × Event A)
  all_tasks b [] = []
  all_tasks b (e ∷ es) = tasks_of b e ++ all_tasks b es

  -- The subscriptions of `c` are those of `b`.
  record Keeps (b c : EventBus A) : Type 0 where
    handlers : c.handlers ≡ b.handlers
    async_handlers : c.async_handlers ≡ b.async_handlers
    global_handlers : c.global_handlers ≡ b.global_handlers
    async_global_handlers : c.async_global_handlers ≡ b.async_global_handlers

  all_calls-same :
      (b c : EventBus A) (fs : List (Event A)) → Keeps b c → all_calls c fs ≡ all_calls b fs
  all_calls-same b c [] k = refl
  all_calls-same b c (f ∷ fs) k = rw (k.handlers, k.global_handlers, all_calls-same b c fs k) refl

  all_tasks-same :
      (b c : EventBus A) (fs : List (Event A)) → Keeps b c → all_tasks c fs ≡ all_tasks b fs
  all_tasks-same b c [] k = refl
  all_tasks-same b c (f ∷ fs) k =
      rw (k.async_handlers, k.async_global_handlers, all_tasks-same b c fs k) refl

  all_calls-append :
      (b : EventBus A) (es fs : List (Event A))
      → all_calls b (es ++ fs) ≡ all_calls b es ++ all_calls b fs
  all_calls-append b [] fs = refl
  all_calls-append b (e ∷ es) fs =
      rw (all_calls-append b es fs) (sym (append_assoc _ (all_calls b es) (all_calls b fs)))

  all_tasks-append :
      (b : EventBus A) (es fs : List (Event A))
      → all_tasks b (es ++ fs) ≡ all_tasks b es ++ all_tasks b fs
  all_tasks-append b [] fs = refl
  all_tasks-append b (e ∷ es) fs =
      rw (all_tasks-append b es fs) (sym (append_assoc _ (all_tasks b es) (all_tasks b fs)))

  -- From bus `b` to bus `c` the events `ps` were put and the events `es` delivered: they left the
  -- queue in its order, and each made its calls and its tasks.
  pub record Delivers (b c : EventBus A) (ps es : List (Event A)) : Type 0 where
    pub queue : b.event_queue ++ ps ≡ es ++ c.event_queue
    pub called : c.called ≡ b.called ++ all_calls b es
    pub tasks : c.tasks ≡ b.tasks ++ all_tasks b es

  unmoved :
      (b c : EventBus A)
      → c.event_queue ≡ b.event_queue
      → c.called ≡ b.called
      → c.tasks ≡ b.tasks
      → Delivers b c [] []
  unmoved b c q k t = record {
    queue = append-nil b.event_queue ∙ sym q;
    called = k ∙ sym (append-nil b.called);
    tasks = t ∙ sym (append-nil b.tasks);
  }

  turn-Keeps : (b : EventBus A) → Keeps b (turn b)
  unfolding turn
  turn-Keeps b = record {
    handlers = ground arith;
    async_handlers = ground arith;
    global_handlers = ground arith;
    async_global_handlers = ground arith;
  }

  take_step-Keeps : (s : Step A) (b : EventBus A) → Keeps b (take_step s b)
  unfolding emit_async stop start
  take_step-Keeps (put e) b = record {
    handlers = refl;
    async_handlers = refl;
    global_handlers = refl;
    async_global_handlers = refl;
  }
  take_step-Keeps end_wait b = turn-Keeps b
  take_step-Keeps stop_bus b = record {
    handlers = refl;
    async_handlers = refl;
    global_handlers = refl;
    async_global_handlers = refl;
  }
  take_step-Keeps start_bus b = record {
    handlers = refl;
    async_handlers = refl;
    global_handlers = refl;
    async_global_handlers = refl;
  }

  -- A wait ends with an event exactly if the loop waits and there is one.
  abbrev pub next : Loop → List (Event A) → List (Event A)
  next off es = []
  next waiting [] = []
  next waiting (e ∷ es) = e ∷ []

  turn_event :
      (b : EventBus A) (e : Event A) (es : List (Event A))
      → b.loop ≡ waiting
      → b.event_queue ≡ e ∷ es
      → ((turn b).event_queue ≡ es)
        × ((turn b).called ≡ b.called ++ calls_of b e)
        × ((turn b).tasks ≡ b.tasks ++ tasks_of b e)
  unfolding turn
  turn_event b e es l q = rw (l, turn) (rw q (refl, refl, refl))

  turn-Delivers :
      (b : EventBus A) (l : Loop) (q : List (Event A))
      → b.loop ≡ l
      → b.event_queue ≡ q
      → Delivers b (turn b) [] (next l q)
  unfolding turn
  turn-Delivers b off q h k = unmoved b (turn b) (ground arith) (ground arith) (ground arith)
  turn-Delivers b waiting [] h k = unmoved b (turn b) (ground arith) (ground arith) (ground arith)
  turn-Delivers b waiting (e ∷ es) h k =
      let (queue, called, tasks) = turn_event b e es h k in
      record {
        queue = append-nil b.event_queue ∙ k ∙ ap (λ l. e ∷ l) (sym queue);
        called = called ∙ ap (λ l. b.called ++ l) (sym (append-nil (calls_of b e)));
        tasks = tasks ∙ ap (λ l. b.tasks ++ l) (sym (append-nil (tasks_of b e)));
      }

  -- The events that a step puts and delivers.
  abbrev put_by : Step A → List (Event A)
  put_by s = puts (s ∷ [])

  abbrev delivered_by : Step A → EventBus A → List (Event A)
  delivered_by (put e) b = []
  delivered_by end_wait b = next b.loop b.event_queue
  delivered_by stop_bus b = []
  delivered_by start_bus b = []

  step-Delivers :
      (s : Step A) (b : EventBus A) → Delivers b (take_step s b) (put_by s) (delivered_by s b)
  unfolding emit_async stop start
  step-Delivers (put e) b = record {
    queue = refl;
    called = sym (append-nil b.called);
    tasks = sym (append-nil b.tasks);
  }
  step-Delivers end_wait b = turn-Delivers b b.loop b.event_queue refl refl
  step-Delivers stop_bus b = unmoved b (stop b) refl refl refl
  step-Delivers start_bus b = unmoved b (start b) refl refl refl

  Delivers-trans :
      (b c d : EventBus A) (ps es qs fs : List (Event A))
      → Keeps b c
      → Delivers b c ps es
      → Delivers c d qs fs
      → Delivers b d (ps ++ qs) (es ++ fs)
  Delivers-trans b c d ps es qs fs k h i = record {
    queue =
        sym (append_assoc b.event_queue ps qs)
        ∙ ap (λ l. l ++ qs) h.queue
        ∙ append_assoc es c.event_queue qs
        ∙ ap (λ l. es ++ l) i.queue
        ∙ sym (append_assoc es fs d.event_queue);
    called =
        i.called
        ∙ ap₂ (λ l m. l ++ m) h.called (all_calls-same b c fs k)
        ∙ append_assoc b.called (all_calls b es) (all_calls b fs)
        ∙ ap (λ l. b.called ++ l) (sym (all_calls-append b es fs));
    tasks =
        i.tasks
        ∙ ap₂ (λ l m. l ++ m) h.tasks (all_tasks-same b c fs k)
        ∙ append_assoc b.tasks (all_tasks b es) (all_tasks b fs)
        ∙ ap (λ l. b.tasks ++ l) (sym (all_tasks-append b es fs));
  }

  puts-cons : (s : Step A) (ss : List (Step A)) → puts (s ∷ ss) ≡ put_by s ++ puts ss
  puts-cons (put e) ss = refl
  puts-cons end_wait ss = refl
  puts-cons stop_bus ss = refl
  puts-cons start_bus ss = refl

  -- Whatever is put, and however often the loop is stopped and started, events are delivered in the
  -- order in which they were put, each once and none out of nothing: what stood in the queue and was
  -- put is what has been delivered followed by what still stands there; and the calls and the tasks
  -- are those that the delivered events make with the subscriptions of the bus, in that order.
  pub run-Delivers :
      (ss : List (Step A)) (b : EventBus A)
      → (es : List (Event A)) × Delivers b (run ss b) (puts ss) es
  unfolding run
  run-Delivers [] b = ([], unmoved b b refl refl refl)
  run-Delivers (s ∷ ss) b =
      let c = take_step s b in
      let (es, h) = run-Delivers ss c in
      let whole =
        Delivers-trans b c (run ss c) (put_by s) (delivered_by s b) (puts ss) es
          (take_step-Keeps s b) (step-Delivers s b) h in
      (
        delivered_by s b ++ es,
        subst (λ ps. Delivers b (run ss c) ps (delivered_by s b ++ es)) (sym (puts-cons s ss))
            whole,
      )
