-- ===== src/Lib.antt =====
-- TraderAI is a backend that builds one-minute candles from a stream of ticks, scans them for
-- long-only candidates, lets a model judge each candidate, and trades the candidates on paper. This
-- library models the parts that decide something, and proves what they promise.
--
-- How the parts interact. The stream hands its ticks to the candle builder, which emits completed
-- candles. The scanner splits the candles into sessions, judges the quality of the data, collects
-- vetoes and turns a strategy's condition into a candidate or a rejected signal. A decision checks
-- the raw output of a model for a candidate before anything of it is used. The paper service loads
-- stored candidates, builds an instruction from the candle of each, simulates it over the later
-- candles of the day, and records orders, a trade and a journal entry; the reports count the journal.
-- The scanner service runs the strategies over the stored candles of each symbol and stores a signal
-- once under its key; the decision automation evaluates the new candidates of a batch. The scheduler
-- of the market operations runs the jobs of a day, each key once, and retries the start of the stream
-- after a missing login; the login service keeps the broker's session that the stream needs.
--
-- The files, and the code they are about:
--   Common/*                 helpers: tests, lists, maps, integers, payloads, clocks
--   MarketData/Candles/*     backend/app/market_data/candle_builder.py: OneMinuteCandleBuilder
--                            (accept_tick, flush_completed_before, invalidate_after_stream_gap),
--                            the ticks and candles of schemas.py, and the loop of handle_ticks in
--                            websocket_service.py
--   MarketData/Watchlists/*  backend/app/market_data/watchlist.py: parse_watchlist, and
--                            watchlist_validation.py: load_watchlist_source,
--                            strict_configured_watchlist and _diagnose_entries
--   Analysis/Sessions/*      backend/app/analysis/feature_builder.py and indicators.py: session
--                            scopes, data quality, opening range, continuity
--   Scanner/Vetoes           backend/app/scanners/vetoes.py: hard_vetoes
--   Scanner/Strategies/*     backend/app/scanners/strategies.py: both strategies and _evaluation
--   Scanner/Signals          backend/app/scanners/repository.py: InMemoryScannerRepository, and the
--                            counts of service.py
--   Scanner/Service/*        backend/app/scanners/service.py: _run_symbol, run_batch, run_replay
--   Decision/Automation/*    backend/app/decision/automation.py: DecisionAutomationService
--   Decision/Payloads/*      backend/app/decision/service.py: the scans of a raw output
--   Decision/Outputs/*       backend/app/decision/service.py and schemas.py: _validate_output
--   Decision/Service/*       backend/app/decision/service.py and repository.py: evaluate over
--                            InMemoryDecisionRepository
--   Ops/Events               backend/app/ops: the jobs, the events and the summary of a job
--   Ops/Scheduler/*          backend/app/ops/market_ops_scheduler.py: MarketOpsScheduler; a step
--                            is a tick of _loop, start, stop or run_job by an operator
--   Broker/Sessions/*        backend/app/broker/session_store.py: SQLAlchemySessionStore, and
--                            next_kite_expiry of kite_auth_service.py
--   Broker/Auth              backend/app/broker/token_cipher.py and session_provider.py, and the
--                            settings and status of kite_auth_service.py
--   Broker/Login/*           backend/app/broker/kite_auth_service.py: KiteAuthService
--   Paper/Schemas            backend/app/paper/schemas.py: configuration, signals, outcomes
--   Paper/Simulator/*        backend/app/paper/simulator.py: build_instruction and simulate
--   Paper/Repository         backend/app/paper/repository.py: InMemoryPaperRepository
--   Paper/Service/*          backend/app/paper/service.py: run_replay
--   Paper/Report/*           backend/app/paper/reporting.py and the counts of a replay summary
-- An object that the code mutates is a record that each operation takes and gives back. An exception
-- is a value: none, or a constructor of a result type, as said where the function is defined.
--
-- Units and bounds. A Decimal is an integer in units of 10^-6, the quantum of the price columns and
-- of the paper engine; the settings are read with at most six decimals, and a product is exact while
-- it has at most the 28 digits of the decimal context. Integers are unbounded, as in Python. An
-- instant is a count of microseconds since 1970-01-01T00:00Z, and India is at UTC+05:30 at all times.
-- A set of string constants is a data type. Every loop is structural recursion on a list, so no fuel
-- is needed.
--
-- Not modelled: database access (the SQL repositories, but for the statements of the session table,
-- which are modelled by what they say), the web routes, the remote broker and model clients, logging,
-- settings, and text rendering, which decide nothing here; the indicators that divide Decimals, whose
-- values the strategies and the scanner service take as given; the scanner's auto loop, the universe
-- selection and the jobs of the market operations, whose results the scheduler takes from an
-- environment. A step of the scheduler is not interleaved with another one: where a job of an operator
-- is running, its lock shows as a busy tick. The key store of the login states, Fernet and the
-- broker's client are parameters. str.upper, str.lower, str.replace,
-- str.split, str.join, str.strip and str.count of a watchlist, json.dumps with the search for a
-- pattern in its text, and the schema validation of a model's output by pydantic are parameters.
pub mod Common
pub mod MarketData
pub mod Paper
pub mod Analysis
pub mod Scanner
pub mod Decision
pub mod Ops
pub mod Broker
