-- ===== src/Engine/Events/Types.antt =====
-- `EventType` of src/engine/events.py, compared by its value.
use algo_engine.Prelude.{
  ℕ, ◌≡◌, refl, sym, ap, ◌∙◌, ◌↔◌, true, Option, none, some, List, [], ◌∷◌, ◌==◌, ◌-◌,
  if◌then◌else◌,
}
use algo_engine.Prelude.Eq.{Eq, nat_eq}

-- START and STOP have a suffix, since the bus has operations of those names.
pub data EventType : Type 0 where
  tick bar trade quote order_submitted order_filled order_cancelled order_rejected order_updated
        position_opened position_closed position_updated portfolio_changed cash_changed start_event
        stop_event pause resume warmup_started warmup_finished market_open market_close end_of_day
        custom signal alert websocket_message websocket_error websocket_connected
        websocket_disconnected :
      EventType

-- The value that `auto` gives.
unfoldable pub value : EventType → ℕ
value tick = 1
value bar = 2
value trade = 3
value quote = 4
value order_submitted = 5
value order_filled = 6
value order_cancelled = 7
value order_rejected = 8
value order_updated = 9
value position_opened = 10
value position_closed = 11
value position_updated = 12
value portfolio_changed = 13
value cash_changed = 14
value start_event = 15
value stop_event = 16
value pause = 17
value resume = 18
value warmup_started = 19
value warmup_finished = 20
value market_open = 21
value market_close = 22
value end_of_day = 23
value custom = 24
value signal = 25
value alert = 26
value websocket_message = 27
value websocket_error = 28
value websocket_connected = 29
value websocket_disconnected = 30

nth : ℕ → List EventType → Option EventType
nth n [] = none
nth n (t ∷ ts) = if n == 1 then some t else nth (n - 1) ts

abbrev all_types : List EventType
all_types =
    tick ∷ bar ∷ trade ∷ quote ∷ order_submitted ∷ order_filled ∷ order_cancelled ∷ order_rejected
    ∷ order_updated ∷ position_opened ∷ position_closed ∷ position_updated ∷ portfolio_changed
    ∷ cash_changed ∷ start_event ∷ stop_event ∷ pause ∷ resume ∷ warmup_started ∷ warmup_finished
    ∷ market_open ∷ market_close ∷ end_of_day ∷ custom ∷ signal ∷ alert ∷ websocket_message
    ∷ websocket_error ∷ websocket_connected ∷ websocket_disconnected ∷ []

of_value : (t : EventType) → nth (value t) all_types ≡ some t
unfolding nth value
of_value tick = refl
of_value bar = refl
of_value trade = refl
of_value quote = refl
of_value order_submitted = refl
of_value order_filled = refl
of_value order_cancelled = refl
of_value order_rejected = refl
of_value order_updated = refl
of_value position_opened = refl
of_value position_closed = refl
of_value position_updated = refl
of_value portfolio_changed = refl
of_value cash_changed = refl
of_value start_event = refl
of_value stop_event = refl
of_value pause = refl
of_value resume = refl
of_value warmup_started = refl
of_value warmup_finished = refl
of_value market_open = refl
of_value market_close = refl
of_value end_of_day = refl
of_value custom = refl
of_value signal = refl
of_value alert = refl
of_value websocket_message = refl
of_value websocket_error = refl
of_value websocket_connected = refl
of_value websocket_disconnected = refl

some_injective : {a b : EventType} → some a ≡ some b → a ≡ b
some_injective h = cc

value_injective : (a b : EventType) → value a ≡ value b → a ≡ b
value_injective a b h = some_injective (sym (of_value a) ∙ ap (λ n. nth n all_types) h ∙ of_value b)

pub event_type_beq_iff : (a b : EventType) → ((value a == value b) ≡ true) ↔ (a ≡ b)
event_type_beq_iff a b = (
  λ h. value_injective a b ((nat_eq.beq_iff (value a) (value b)).0 h),
  λ h. (nat_eq.beq_iff (value a) (value b)).1 (ap value h),
)

instance abbrev pub event_type_eq : Eq EventType
event_type_eq = record { beq = λ a b. value a == value b; beq_iff = event_type_beq_iff }
