-- ===== src/Lib.antt =====
-- The execution layer of the trading bot, the portfolio, risk and exit decisions before it, and
-- the RPC layer and the swap arithmetic that it uses.
--
-- A signal that the strategy accepts is locked against duplicates (execution/idempotency.py),
-- queued by priority behind a rate limiter (execution/queues.py), and becomes a position of the
-- order manager (execution/order_manager.py, over execution/order_state_machine.py), which ticks
-- and forced closes end. Orders that fill only in part are followed by the partial fill handler
-- (execution/partial_fill_handler.py) and tried again by the retry manager
-- (execution/partial_retry.py). Micro trading has limits of its own
-- (execution/safety/micro_guard.py). The portfolio (strategy/state.py, strategy/state_update.py)
-- takes each fill, its manager (integration/portfolio_manager.py) keeps a checkpoint, the gates
-- (integration/gates.py) and the risk engine (strategy/risk_engine.py, over
-- integration/portfolio_stub.py) allow or refuse a trade, and the daily promotion
-- (strategy/promotion.py) chooses the wallets that are followed, whose profiles come from several
-- sources (integration/wallet_merge.py) and whose tiers follow their metrics
-- (strategy/tiers/autoscaler.py). An open position may switch to an aggressive mode
-- (strategy/aggr_logic.py), has its own state and trailing distance (execution/position_state.py,
-- execution/trailing_adjuster.py), and is held or sold by strategy/exits.py; the simulator sells
-- shares of a trade (execution/sim_fill.py, over execution/transaction_builder.py). Thresholds
-- and limits are reloaded while the bot runs (config/hot_reload.py, config/runtime_schema.py).
-- The reorg guard (execution/reorg_guard.py) polls the transactions that are not final, and the
-- state reconciler (monitoring/state_reconciler.py) compares the local balance with that on the
-- chain. The kill switch (ops/panic.py, ops/kill_switch.py) stops a cycle and is to
-- close the positions of the order manager. RPC requests are batched (ingestion/rpc/batcher.py), go to an
-- endpoint that the failover manager chooses by the scores of the health monitor
-- (ingestion/rpc/failover.py, ingestion/rpc/monitor.py), and their answers are cached
-- (ingestion/rpc/cache.py); amounts of a swap are those of a constant product pool
-- (ingestion/dex/raydium/math.py).
--
-- The files, with the code that each models; a definition has the name of the function, method or
-- class that it models, and parts of a long method have names of their own beside it:
--   Shared: helpers. Int has the integers over native numbers, Dict Python's dictionaries in
--     their order of insertion, Keys lists of their keys, Sets its sets of texts and its stable
--     sort, Text `str.upper`, Bounds bounds on numbers that may be missing, Results and Options
--     the code that may raise.
--   Orders: order_state_machine.py (Position) and order_manager.py (Manager, Reports); Invariant
--     and Steps are about all sequences of calls, Ticks and Due about on_tick, Closing about on_fill
--     and force_close, Records about the dictionary form and the statistics.
--   KillSwitch: panic.py (Panic) and kill_switch.py (Shutdown), over Orders; NoClose is about the
--     emergency close, Gate about the flag.
--   Fills: partial_fill_handler.py (Handler); Lookups is about fills, Closes about forced closes,
--     Timeouts and Expired about the sweep.
--   Idempotency: idempotency.py (Manager); File is about the state file, Locks about the
--     operations on a disk without failures, Failures about failing reads and writes.
--   Queues: queues.py (Limiter, Signals, Combined); Tokens and Rate are about the limiter, Order
--     and Drain about the priority queue.
--   Rpc: cache.py (Cache); Expiry is about reads and writes, Cleanup about the cleanup.
--   Amm: raydium/math.py (Swap); Bounds is about what a swap pays, Inverse about get_amount_in.
--   Retry: partial_retry.py and models.py (Manager); Attempts is about one call, Budget about a
--     chain.
--   MicroGuard: micro_guard.py (Guard); Limits is about the orders it lets through.
--   Portfolio: state.py (State), state_update.py (Update) and portfolio_manager.py (Manager);
--     Cooldown is about cooldowns and checkpoints, Assets about the bankroll, Exposure about the
--     exposures.
--   Reorg: reorg_guard.py (Status, Guard); Polls is about polls and their sequences.
--   Failover: monitor.py (Health) and failover.py (Manager); Scores and Rounds are about the
--     monitor, Ranking and Choice about the endpoint that is chosen, Active about runs of the
--     manager.
--   Batcher: batcher.py (Queue); Steps has its runs, Answers is about the futures, Unanswered
--     about a batcher without a callable.
--   Risk: risk_engine.py and portfolio_stub.py (Limits, Aggressive); Checks is about the limits.
--   Gates: integration/gates.py and the parts of strategy/honeypot_filter.py that it calls (Data,
--     Checks); Thresholds is about single gates, Decisions about what passes, Honeypot about the
--     honeypot gate.
--   Reconcile: monitoring/state_reconciler.py (Balance); Ledger is about its checks.
--   Promotion: promotion.py (Daily, Settings); Reasons is about single wallets, Best about the
--     selection.
--   Tiers: strategy/tiers/autoscaler.py (Data, Scaling); Moves is about single moves, Partition
--     about the tiers of all wallets, Whitelist about the wallets that are never demoted.
--   Exits: strategy/exits.py (Config, Evaluate, Simulate); Decisions is about the stop loss, Kept
--     about positions that are held, Shares and Quantities about what is sold.
--   AggrSwitch: strategy/aggr_logic.py (Logic); Decisions is about when a position is switched.
--   Trades: transaction_builder.py (Amounts), and strategy/trade_types.py with
--     process_exit_signal of sim_fill.py (Exits); Balance is about runs of exits.
--   Positions: position_state.py (State) and trailing_adjuster.py (Trailing); Times is about
--     positions, Volume about the distance.
--   Merge: integration/wallet_merge.py (Profiles); Wallets is about the addresses, Fields about
--     the values.
--   Reload: runtime_schema.py and the reading of a file (Schema) and the polls of hot_reload.py
--     (Watcher); Ranges is about one file, Runs about all polls.
--   The Tests of each part evaluate its definitions and apply its theorems at concrete inputs.
--
-- State is a record that each operation takes and gives back beside its result; an exception is an
-- error of a Result, or `none`. The code's locks make every operation one step. The time of a call
-- is an argument. Prices, sizes and times, floats in the code, are whole numbers of a smallest
-- unit; the token bucket counts parts of a token, `window` parts to one, and the factors of a
-- retry are fractions, so that both are exact where the code rounds. A health score counts
-- ten-thousandths of a point, so that a microsecond of latency costs one, and errors count in
-- halves; the percentages of the risk limits count hundredths of a percent, the rates of the
-- tiers, the exits, the switch and the configuration ten-thousandths, and comparisons with a
-- quotient are multiplied out. The size of a simulated trade counts parts of a token, however many
-- to one, of which exits sell whole tokens. Files are data: the flag files are a dictionary from
-- paths to texts, the lock file is a list of parsed lines, and a failing call of the operating
-- system is a flag of the state. The standard library's PriorityQueue is its entries in ascending
-- order.
--
-- Parameters: the node's answers to the reorg guard and the reconciler, the health check, the HTTP
-- callable of the batcher, the callback of the partial fill handler, the executor of the order
-- manager, the conversions between a bankroll, a float of coins, and lamports, SHA-256 and the
-- decimal form of numbers, the order in which Python goes through a set, of which is assumed that
-- it has the set's elements, and the printing and parsing of times, of which is assumed, at the
-- times of a position, that a printed time is not empty and reads back.
--
-- The loops of get_all and clear run on fuel, one round for each entry that the queue holds; each
-- round takes an entry, so that this is enough. All other loops are by structural recursion.
--
-- Not modelled: the rounding of other floats, which can move a result that lies on a threshold, so
-- that get_wait_time of the rate limiter, whose wait ends on one, is left out; logging, and the
-- fields that only logs show; the setters of callbacks of the partial fill handler, the float
-- functions of raydium/math.py (price impact and the value of pool shares), the Kelly sizing of
-- the risk engine, the parsing of times, simulate_fill with its random latency, the parsers of
-- profiles from files, the thread of the reloader, and the rest of the repository: clients of
-- services, data sources, pipelines, statistics, machine learning and the vendored library, which
-- are input and output, floats, or calls of libraries.
pub mod Shared
pub mod Tiers
pub mod Trades
pub mod Orders
pub mod KillSwitch
pub mod Failover
pub mod Batcher
pub mod Risk
pub mod Positions
pub mod Promotion
pub mod Reconcile
pub mod Gates
pub mod Exits
pub mod Fills
pub mod Idempotency
pub mod Queues
pub mod Rpc
pub mod AggrSwitch
pub mod Amm
pub mod Retry
pub mod Merge
pub mod MicroGuard
pub mod Portfolio
pub mod Reload
pub mod Reorg
