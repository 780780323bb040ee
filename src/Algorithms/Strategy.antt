-- ===== src/Algorithms/Strategy.antt =====
-- `Strategy` of src/algorithms/strategy.py. Which hooks are called is recorded, and they are taken to
-- return and to leave the strategy alone. Parameters, handlers of orders and positions are left out.
pub mod Terminal
use algo_engine.Prelude.{
  ℕ, zero, suc, ◌+◌, ◌-◌, Bool, true, false, not, ◌&&◌, Option, none, some, List, [], ◌∷◌, ◌++◌,
  String, ltb, if◌then◌else◌, length, ◌==◌, drop,
}
use algo_engine.Prelude.Eq.{Eq, ◌=?◌, string_eq}
use algo_engine.Prelude.Dict.{Dict, lookup, insert, contains}
use algo_engine.Data.Aggregator.Bars.{Bar, last_of}
use algo_engine.Trading.Market.{Tick}
use algo_engine.Trading.Order.{Fill}

pub data StrategyState : Type 0 where
  initialized running paused stopped : StrategyState

-- What a strategy calls: its hooks, and the subscriptions of a symbol.
pub data StrategyCall (S D : Type 0) : Type 0 where
  on_start on_pause on_resume on_stop : StrategyCall S D
  subscribe_bar subscribe_tick : S → StrategyCall S D
  on_bar : Bar S D → StrategyCall S D
  on_tick : Tick S D → StrategyCall S D
  on_fill : Fill S D → StrategyCall S D
  fill_handler : ℕ → Fill S D → StrategyCall S D

-- How `submit_order` ends, with `None` or the AttributeError of `EventType.ORDER`; no order is ever returned.
pub data Submission : Type 0 where
  no_order no_event_type : Submission

-- How `get_latest_price` ends.
pub data LatestPrice (D : Type 0) : Type 0 where
  price : Option D → LatestPrice D
  attribute_error : LatestPrice D

pub record Strategy (S D : Type 0) : Type 0 where
  pub strategy_id : String
  pub symbols : List S
  pub state : StrategyState
  pub bars : Dict S (List (Bar S D))
  pub latest_ticks : Dict S (Tick S D)
  pub fill_handlers : List ℕ
  -- the earliest first
  pub called : List (StrategyCall S D)

abbrev pub is_state_running : StrategyState → Bool
is_state_running running = true
is_state_running _ = false

abbrev pub is_state_paused : StrategyState → Bool
is_state_paused paused = true
is_state_paused _ = false

abbrev pub is_state_stopped : StrategyState → Bool
is_state_stopped stopped = true
is_state_stopped _ = false

abbrev pub drop_first : {A : Type 0} → List A → List A
drop_first [] = []
drop_first (x ∷ xs) = xs

-- The bars of a symbol with one more, at most the last 1000.
abbrev pub push_bar : {A : Type 0} → A → List A → List A
push_bar b bs = let bs' = bs ++ (b ∷ []) in if ltb 1000 (length bs') then drop_first bs' else bs'

module _ {S D : Type 0} where
  abbrev pub no_bars : List S → Dict S (List (Bar S D))
  no_bars [] = []
  no_bars (s ∷ ss) = (s, []) ∷ no_bars ss

  -- `Strategy.__init__`, for symbols that are not repeated.
  unfoldable pub new_strategy : String → List S → Strategy S D
  new_strategy id symbols = record {
    strategy_id = id;
    symbols = symbols;
    state = initialized;
    bars = no_bars symbols;
    latest_ticks = [];
    fill_handlers = [];
    called = [];
  }

  abbrev pub is_running : Strategy S D → Bool
  is_running s = is_state_running s.state

  abbrev pub call : StrategyCall S D → Strategy S D → Strategy S D
  call c s = record s { called = s.called ++ (c ∷ []) }

  -- `_subscribe_to_events`
  abbrev pub subscriptions : List S → List (StrategyCall S D)
  subscriptions [] = []
  subscriptions (s ∷ ss) = subscribe_bar s ∷ subscribe_tick s ∷ subscriptions ss

  -- `start`
  unfoldable pub start : Strategy S D → Strategy S D
  start s =
      if is_state_stopped s.state
      then s
      else record s { state = running; called = s.called ++ (on_start ∷ subscriptions s.symbols) }

  -- `pause`, `resume` and `stop`
  unfoldable pub pause : Strategy S D → Strategy S D
  pause s = if is_state_running s.state then call on_pause (record s { state = paused }) else s

  unfoldable pub resume : Strategy S D → Strategy S D
  resume s = if is_state_paused s.state then call on_resume (record s { state = running }) else s

  unfoldable pub stop : Strategy S D → Strategy S D
  stop s = call on_stop (record s { state = stopped })

  -- `submit_order` of a strategy: `EventType` has no member ORDER, so making the event
  -- raises.
  unfoldable pub submit_order : Strategy S D → Submission
  submit_order s = if is_running s then no_event_type else no_order

  -- The calls of the handlers of a fill, in their order.
  abbrev pub handler_calls : Fill S D → List ℕ → List (StrategyCall S D)
  handler_calls g [] = []
  handler_calls g (h ∷ hs) = fill_handler h g ∷ handler_calls g hs

  -- `_on_fill`, which asks nothing of the state; the handlers are taken to return.
  unfoldable pub take_fill : Fill S D → Strategy S D → Strategy S D
  take_fill g s = record s { called = s.called ++ (on_fill g ∷ handler_calls g s.fill_handlers) }

  -- `on_fill_event`
  unfoldable pub on_fill_event : ℕ → Strategy S D → Strategy S D
  on_fill_event h s = record s { fill_handlers = s.fill_handlers ++ (h ∷ []) }

module _ {S D : Type 0} ⦃eq : Eq S⦄ where
  -- `_on_tick`
  unfoldable pub take_tick : Tick S D → Strategy S D → Strategy S D
  take_tick t s =
      if is_running s
      then call (on_tick t) (record s { latest_ticks = insert t.symbol t s.latest_ticks })
      else s

  abbrev pub bars_of : S → Strategy S D → List (Bar S D)
  bars_of symbol s = elim (lookup symbol s.bars) [ none ↦ [] | some bs ↦ bs ]

  -- `get_bars`; a slice from `-0` on is the whole list.
  unfoldable pub get_bars : S → ℕ → Strategy S D → List (Bar S D)
  get_bars symbol n s = let bs = bars_of symbol s in if n == 0 then bs else drop (length bs - n) bs

  -- `get_latest_price`: it reads `price` of a tick, which a `Tick` does not have.
  unfoldable pub get_latest_price : S → Strategy S D → LatestPrice D
  get_latest_price symbol s =
      if contains symbol s.latest_ticks
      then attribute_error
      else elim (bars_of symbol s) [ [] ↦ price none | b ∷ bs ↦ price (some (last_of b bs).close) ]

  -- `_on_bar`
  unfoldable pub take_bar : Bar S D → Strategy S D → Strategy S D
  take_bar b s =
      if is_running s
      then call (on_bar b) (record s {
        bars = elim (lookup b.symbol s.bars) as (λ _. Dict S (List (Bar S D))) [
          | none ↦ s.bars
          | some bs ↦ insert b.symbol (push_bar b bs) s.bars
        ];
      })
      else s
