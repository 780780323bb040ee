-- ===== src/Lib.antt =====
-- AlgoEngine: a model of the parts of the trading engine that decide by themselves, written from
-- their Python source, with the theorems that make them correct. Paths are from the repository's
-- root.
--
-- Eight parts of the program are modelled, and each is a module with children.
--
-- Fix is src/protocols/fix_handler.py, the FIX 4.4 protocol. Fix.Text has the Python text
-- operations that it uses, on lists of character codes. Fix.Dictionary is FIX_4_4_TAGS with
-- FIX_TAG_NAME and FIX_NAME_TAG. Fix.Message is FIXMessage, an association list in order of
-- insertion, with set, get, get_int, has and remove; Fix.Message.Builders has logon, heartbeat,
-- logout, new_order_single, order_cancel_request and market_data_request, which take the time
-- stamp as an argument. Fix.Wire is encode, encode_str and parse; its children are about the round
-- trip and the layout of a frame. Fix.Framing is _extract_body_length, _process_buffer and the
-- buffer of _read_loop; its children are about the searches, the chunks and the frames.
-- Fix.Session is FIXSession: send, the administrative messages, dispatch and heartbeats;
-- Fix.Session.Connection has connect, disconnect, the read loop and the registration of handlers;
-- the other children are about sequence numbers, states and the life cycle. Fix.Connection is
-- FIXConnection with one turn of its monitor, the factories, and the builders of FIXSession.
-- Messages go from Fix.Session through Fix.Wire to the transport, and from the transport through
-- Fix.Framing to dispatch.
--
-- Resilience is src/utils/error_handler.py. Resilience.Exceptions is categorize_exception, over
-- the names of the classes of an exception and its status attributes. Resilience.Breaker is
-- CircuitBreaker: execute is divided at its await into admit and settle, so that calls that run at
-- the same time are a sequence of the two. Resilience.Retry is retry_async over what each attempt
-- does and what other tasks do to the breaker meanwhile. Its children Loop and Answers are about
-- the attempts that it makes and about what comes out of them. Resilience.Handler is ErrorHandler,
-- a breaker and a count for each context.
--
-- Trading is src/trading. Trading.Decimal is all that is used of Python's decimal numbers, as an
-- instance argument, with the laws that a lemma needs as hypotheses of its own, which whole
-- numbers meet. Trading.Order and Trading.Position are Order, Fill, Position and Trade of
-- models.py; Trading.OrderManager and Trading.PositionManager are the classes of order_manager.py
-- and position_manager.py. Trading.OrderRouter is order_router.py: brokers, metrics and rules,
-- with Split for the splitting of orders and Route for the strategies and route_order; Available,
-- Choice, Totals and Turns are about the brokers chosen, the quantities of parts, and the turns of
-- round-robin routing. Trading.Market has the ticks of src/data/models.py and the models of
-- commission and slippage. Trading.Execution is ExecutionEngine of execution_engine.py over the
-- two managers: Filled, Filling, Targets and Pending are about what a tick does to pending orders,
-- Prices about the prices of fills, Rejected about orders that a broker refuses.
-- Trading.LiveEngine is LiveEngine of live_engine.py, over the execution engine, the circuit
-- breaker of Resilience and the risk manager of Portfolio; Connection, Cancellation, Submission,
-- Ticks, OrderSync and Reconnection are its operations, the last one the health check with
-- retry_async of Resilience; a submission is a definition in one go and, for what overlaps the
-- wait for the broker, two; Narrow, Limits and Reach are about the limits of the day in all states
-- that it reaches, Standby about pausing, and Reconnection.Outcomes about what a health check
-- comes to.
--
-- Engine is src/engine. Engine.Events is EventBus of events.py: the handlers are numbers, and what
-- is called and which tasks are created is recorded; its children have the event types, a plain
-- list of subscriptions as the specification of who is called, and the queue with the loop that
-- empties it. Engine.Lifecycle is Engine of engine.py, whose components are interfaces: which of
-- them are there is a field each, what they are told is recorded, and how a call of one ends is an
-- argument. It announces its events on the bus of Engine.Events.
--
-- Data is src/data. Data.StreamCache and its children Store and Flow are StreamCache of
-- stream_cache.py: Store puts, gets, evicts and clears, and Flow is the queue with backpressure;
-- Victims, Bounds, Stored, Calls and Removals are about the size and the index, operation by
-- operation, and Flowing and Pressure are about the queue. Data.SymbolCache is SymbolCache.
-- Data.Sync is SequenceManager of sync_manager.py, with Missing about what it takes to be missing,
-- and Data.Sync.Manager is DataSyncManager, with Buffer about its packets. Data.Aggregator is
-- DataAggregator of feed.py, with Bars for the bars that it makes, Bars.Range about their prices
-- and Batches about the ticks that go into them.
--
-- Algorithms is src/algorithms/strategy.py and strategy_manager.py: Algorithms.Strategy is
-- Strategy, with its hooks recorded, and Algorithms.StrategyManager is the class of that name;
-- Terminal and Stopped are about strategies that are stopped.
--
-- Portfolio is src/portfolio/portfolio.py and src/risk/risk_manager.py, and position_sync.py
-- beside it: Portfolio itself is the class of that name, Portfolio.Sync is PositionSynchronizer,
-- with Reconciled about what it leaves, and Portfolio.Risk is RiskManager, which reads it.
-- Portfolio.Trades and Portfolio.Limits are about cash and about the orders that pass.
--
-- Plugins is src/plugins. Plugins.Version is the reading and comparing of versions,
-- Plugins.Registry is PluginRegistry of loader.py with the states and metadata of interface.py,
-- and Plugins.Loader is PluginLoader on a registry, where what discovery finds and how each call
-- of a plugin ends are arguments; Reachable and Run are about the plugins that any sequence of
-- calls leaves registered.
--
-- Prelude passes on the library's names and has what the parts share: Boolean tests on natural
-- numbers, lists, whole numbers, keys with a decidable equality, and dicts as association lists in
-- order of insertion. The modules named Tests run the definitions and apply the theorems.
--
-- State is passed explicitly. An exception is a value beside the state that it leaves, or none
-- where it comes before any change. The clock, the network, and what callbacks and other tasks do
-- are arguments. Callbacks are numbers and what is called is recorded; they are taken to leave the
-- object alone. Two loops run on fuel: process has as many turns as the buffer has bytes, since a
-- turn that goes on takes a byte off at least; print_digits has one more turn than its number,
-- since a turn divides it by ten. The retry loop and connect count the attempts that are left.
--
-- Not modelled: the adapters of brokers and data services, storage, monitoring, configuration and
-- the command line, which are input and output; indicators, metrics and backtesting, which are
-- floating-point computations over libraries; and the feeds of market data. Within the modelled
-- files: the log of the live engine, what an exception leaves behind while a tick is processed,
-- the discovery and the import of plugins, delays between retries, the reconnecting loop of the
-- engine's data feed, get_float, percentages and summaries in floats.
pub mod Prelude
pub mod Resilience
pub mod Fix
pub mod Trading
pub mod Engine
pub mod Data
pub mod Portfolio
pub mod Plugins
pub mod Algorithms
