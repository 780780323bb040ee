-- ===== src/Trading/LiveEngine.antt =====
-- `LiveEngine` of src/trading/live_engine.py over the execution engine, the risk manager and the circuit
-- breaker. The pending orders share their objects with the order manager, so the engine keeps their
-- ids. The portfolio's value is an argument; so is how a call of the broker ends. Logs, callbacks of
-- the user, and the times of the background loops are left out.
pub mod Connection
pub mod Cancellation
pub mod Submission
pub mod Ticks
pub mod OrderSync
pub mod Reconnection
pub mod Narrow
pub mod Limits
pub mod Reach
pub mod Standby
mod Tests
use algo_engine.Prelude.{
  ℕ, ◌+◌, Bool, true, false, ◌&&◌, Option, none, some, List, [], ◌∷◌, ◌++◌, String, if◌then◌else◌,
}
use algo_engine.Resilience.Breaker.{CircuitBreaker}
use algo_engine.Trading.Decimal.{Decimal}
use algo_engine.Trading.Execution.{ExecutionEngine, Broker, no_broker}
use algo_engine.Portfolio.Risk.{RiskManager}

pub data LiveTradingMode : Type 0 where
  paper live warmup standby : LiveTradingMode

pub data EngineHealth : Type 0 where
  healthy degraded critical offline : EngineHealth

pub record LiveEngineConfig (D : Type 0) : Type 0 where
  pub max_pending_orders : ℕ
  pub max_daily_trades : ℕ
  pub max_daily_volume : D
  pub circuit_breaker_loss_pct : D
  pub auto_reconnect : Bool
  pub reconnect_max_attempts : ℕ

pub record LiveTradingStats (D : Type 0) : Type 0 where
  pub total_orders_submitted : ℕ
  pub total_orders_filled : ℕ
  pub total_orders_rejected : ℕ
  pub total_orders_cancelled : ℕ
  pub total_volume : D
  pub total_commission : D
  pub total_slippage : D
  pub peak_portfolio_value : D
  pub current_drawdown_pct : D
  pub connection_drops : ℕ

-- The events that the engine emits.
pub data LiveEvent : Type 0 where
  start_event stop_event pause_event resume_event : LiveEvent
  order_submitted order_cancelled order_filled : String → LiveEvent

pub record LiveEngine (S D : Type 0) : Type 0 where
  pub config : LiveEngineConfig D
  pub mode : LiveTradingMode
  pub execution : ExecutionEngine S D
  pub risk_manager : Option (RiskManager S D)
  pub circuit_breaker : CircuitBreaker
  pub stats : LiveTradingStats D
  pub running : Bool
  pub health : EngineHealth
  pub is_connected : Bool
  pub daily_trade_count : ℕ
  pub daily_volume : D
  pub pending_orders : List String
  -- the earliest first
  pub events : List LiveEvent

abbrev pub is_live : LiveTradingMode → Bool
is_live live = true
is_live _ = false

abbrev pub is_warmup : LiveTradingMode → Bool
is_warmup warmup = true
is_warmup _ = false

abbrev pub is_standby : LiveTradingMode → Bool
is_standby standby = true
is_standby _ = false

abbrev pub has_broker : Broker → Bool
has_broker no_broker = false
has_broker _ = true

module _ {S D : Type 0} where
  abbrev pub emit : LiveEvent → LiveEngine S D → LiveEngine S D
  emit x e = record e { events = e.events ++ (x ∷ []) }

  abbrev pub with_broker : Broker → LiveEngine S D → LiveEngine S D
  with_broker b e = record e { execution = record e.execution { broker = b } }

  -- `LiveEngine.__init__`
  unfoldable pub new_live :
      ⦃d : Decimal D⦄
      → LiveEngineConfig D
      → LiveTradingMode
      → ExecutionEngine S D
      → CircuitBreaker
      → LiveEngine S D
  new_live ⦃d⦄ config mode execution breaker = record {
    config = config;
    mode = mode;
    execution = execution;
    risk_manager = none;
    circuit_breaker = breaker;
    stats = record {
      total_orders_submitted = 0;
      total_orders_filled = 0;
      total_orders_rejected = 0;
      total_orders_cancelled = 0;
      total_volume = d.zero;
      total_commission = d.zero;
      total_slippage = d.zero;
      peak_portfolio_value = d.zero;
      current_drawdown_pct = d.zero;
      connection_drops = 0;
    };
    running = false;
    health = offline;
    is_connected = false;
    daily_trade_count = 0;
    daily_volume = d.zero;
    pending_orders = [];
    events = [];
  }

  unfoldable pub set_risk_manager : RiskManager S D → LiveEngine S D → LiveEngine S D
  set_risk_manager m e = record e { risk_manager = some m }

  -- `pause` and `resume`
  unfoldable pub pause : LiveEngine S D → LiveEngine S D
  pause e =
      if e.running && is_live e.mode then emit pause_event (record e { mode = standby }) else e

  unfoldable pub resume : LiveEngine S D → LiveEngine S D
  resume e =
      if e.running && is_standby e.mode then emit resume_event (record e { mode = live }) else e

  -- The day's reset of `_daily_reset_loop`
  unfoldable pub daily_reset : ⦃d : Decimal D⦄ → LiveEngine S D → LiveEngine S D
  daily_reset ⦃d⦄ e = record e { daily_trade_count = 0; daily_volume = d.zero }
