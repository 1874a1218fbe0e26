-- ===== src/Lib.antt =====
-- A model of the trading runtime in prime_jennie_runtime/: the parts that decide which sheets are
-- published, when a waiting sheet enters, when a position is closed, how much risk is taken, and
-- how much a standing order to buy in slices may spend.
--
-- How the program works. The slow loop asks language models for a macro gate and for candidates;
-- its strategy engine refuses a candidate or builds a position sheet, and the publisher writes the
-- sheet to the database and to a stream. The fast loop holds the sheets in a queue until their
-- entry conditions are met, buys, and registers the position with a tracker; each tick of an open
-- position is then evaluated against the sheet's exit rules, and a decision goes to the exit
-- executor. All orders go through the KIS gateway, which limits the rate of calls and breaks the
-- circuit on failures. Beside these, user-directed campaigns buy a ticker in slices.
--
-- The files, with the code that they model:
--   PositionSheet: prime_jennie_runtime/position_sheet/schema.py, the contract between the
--     loops; PositionSheet/Validation is `validate_all`, PositionSheet/Raw the reading of rules,
--     conditions and sizes that a model wrote, with the bounds of their fields.
--   FastLoop/Domain, FastLoop/ExitRules, FastLoop/ExitEvaluator, FastLoop/Indicators:
--     prime_jennie_runtime/fast_loop/domain.py, exit_evaluator.py and indicators.py. `check_x` is
--     `_check_x`; a checker that writes to the position returns the new state with its decision.
--   FastLoop/ExitExecutor: `ExitExecutor.execute` and `_record_exit_failure` of
--     prime_jennie_runtime/fast_loop/exit_executor.py, with the order types of
--     prime_jennie_runtime/kis_gateway/schemas.py (KisGateway/Schemas).
--   FastLoop/EntryExecutor: `EntryExecutor.execute`, `_build_order_request` and
--     `_align_tick_size` of prime_jennie_runtime/fast_loop/entry_executor.py.
--   FastLoop/PositionTracker: prime_jennie_runtime/fast_loop/position_tracker.py; what Redis holds
--     is a field of the tracker.
--   FastLoop/TickLoop: what prime_jennie_runtime/fast_loop/tick_loop.py does with one held sheet
--     on a tick; FastLoop/TickLoop/Exits is its loops over the held sheets and `_process`, and
--     FastLoop/EntryPath is `_evaluate_pending_entries`.
--   FastLoop/Consumer: prime_jennie_runtime/fast_loop/consumer.py. FastLoop/Cooldown:
--     prime_jennie_runtime/fast_loop/cooldown_check.py. FastLoop/Run puts the consumer, the ticks and
--     the purge of the queue together.
--   FastLoop/PendingEntry: `PendingEntryQueue` of
--     prime_jennie_runtime/fast_loop/pending_entry.py; what Redis holds is a field of the queue,
--     and whether a call to it goes through is an argument.
--   FastLoop/EntryConditions: `EntryConditionEvaluator` of the same file.
--   FastLoop/BarEngine: prime_jennie_runtime/fast_loop/bar_engine.py.
--   FastLoop/RiskThrottle: prime_jennie_runtime/fast_loop/risk_throttle.py.
--   SlowLoop/MacroGate: prime_jennie_runtime/slow_loop/macro/closed_conditions.py,
--     discretize.py, continuity.py, post_processor.py and the types of schemas.py.
--   SlowLoop/ExitHints, SlowLoop/SheetTimes, SlowLoop/ActiveSheets: the normalisation of hints, the
--     validity times and the database queries of
--     prime_jennie_runtime/slow_loop/strategy/engine.py; SlowLoop/StrategyEngine is
--     `build_sheet_with_reason`, with the sheet put together in SlowLoop/StrategyEngine/Assembly.
--   SlowLoop/Publishing: section 5 of `run_slow_loop` in prime_jennie_runtime/slow_loop/pipeline.py
--     and prime_jennie_runtime/slow_loop/strategy/publisher.py, for one run; what other runs insert
--     between its steps and leave in the engine is part of what a step is given.
--   SlowLoop/Selection: prime_jennie_runtime/slow_loop/scout/selection.py.
--   KisGateway/CircuitBreaker, KisGateway/RateLimiter: the files of those names in
--     prime_jennie_runtime/kis_gateway/.
--   Dca: prime_jennie_runtime/user_directed_dca/state.py, planning.py, executor.py, repository.py
--     and tick.py, each in the file of its name (state.py in Dca/State).
--   Prelude: lists, tests, integers, dictionaries, datetimes and the interface to floats.
--   Examples: concrete inputs for the theorems.
--
-- Conventions. A `float` is a value of a type with an instance of `Prelude.Float`: the
-- operations are parameters, and only the laws of the order are assumed, which comparisons of
-- numbers other than NaN have. A `datetime` is its wall clock in microseconds with the offset of
-- its zone. Tickers and ids are numbers. A method that changes its object takes the state and
-- returns the new one. Concurrent calls are sequences of the steps that the code makes without
-- giving up control, but that FastLoop/Run takes each handler of the fast loop as one step. Every
-- loop is a recursion on a list or over a number of days, so no fuel is needed. `sum` is plain
-- addition from the left.
--
-- Not modelled: input and output (Redis, PostgreSQL, HTTP, Telegram, files), prompts and the
-- calls of language models, crawlers, reports, the dashboard, the backtest, log payloads and
-- texts, among these the text of ids and the provenance section of a sheet; the coordinator and
-- its policies, the scoring of candidates, the control consumer, the parsing of ticks, and the
-- reading of the policy file and of the presets of campaigns.
pub mod Prelude
pub mod PositionSheet
pub mod FastLoop
pub mod SlowLoop
pub mod KisGateway
pub mod Dca
pub mod Examples
