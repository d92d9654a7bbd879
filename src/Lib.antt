-- ===== src/Lib.antt =====
-- newhbot: the trading backend that decides when an order may be sent to an exchange.
--
-- A strategy's signals and a user's commands reach one controller, which is the only part that asks
-- the execution worker, another process, to place or cancel orders. The controller keeps its state in
-- a database: settings (trading switch, emergency latch, system state, close intent), orders, fills,
-- trades, the mirror of the exchange's positions, and one slot that an opening intent holds.
--
-- A loop polls candles and turns a strategy's signals into calls of the controller; a service activates
-- one of the stored strategies. The worker hides the exchange behind one adapter, simulated or real.
--
-- The files:
--   Enums        backend/app/core/enums.py
--   Protocol     backend/app/execution/protocol.py
--   Models       backend/app/models/__init__.py
--   Repositories backend/app/repositories/__init__.py, a child for each table
--   Recovery     backend/app/recovery/manager.py
--   Controllers  backend/app/controllers/: position_guard.py is Guard, the other children are the
--                methods of TradingController, one after another
--   Decimal      Python's decimal.Decimal, as far as the controller computes with it
--   Action       coroutines that change a state and may raise; Action/Moves: what such a coroutine
--                does on every path, composed from what its steps do
--   World        what a coroutine acts on, and the worker
--   Worker       execution-worker/app/: mock_adapter.py is Mock, runtime.py is Runtime,
--                mapping.py is Mapping, ioc_price.py is IocPrice, state_store.py is StateStore,
--                open_order_precheck.py is Precheck, hyperliquid_adapter.py is Hyperliquid with its
--                children Network, Reading and Trading; Raw holds the JSON values and the rows of
--                an account as Python reads them, and Hyperliquid/Logged a connector that notes the
--                cloids it was given
--   Strategies   strategies/: ema5break/strategy.py is Ema5break
--   Strategy     backend/app/strategy/: loop.py is Loop, service.py is Service
--   Text         the tests that Python has for ASCII texts
--   Safety       properties of all paths through the controller
--   Examples     a concrete worker, database, connector, store and candles
--
-- A coroutine is a function from the world to a result or an exception and the world that is left
-- behind. The world holds the session's database, the committed database, every call to the worker
-- with the database that was committed when it was made, and the messages to the event hub. A method
-- keeps its name without the leading underscore; a long method is cut at its early returns, and each
-- piece is named for what it does next. A row object that a method holds is threaded as a value, and
-- its assignments are written to the session by `save`.
--
-- A commit keeps each Numeric column in the form that the database gives back, a parameter of the
-- database, `numeric`; the session's own row objects keep their values, as its `expire_on_commit` is
-- off. A flush that fails ends its session: the exception is let through, and where the code catches
-- it the next use of the session, which follows at once, raises.
--
-- The worker, uuid and the clock are parameters, in the record `Env` of World: each answer is a
-- function of all calls made before, and may be an exception. Nothing is assumed of them. So are the
-- candles, the worker's status and the running strategy, in `LoopEnv`; the operations of Python's
-- float, in `Floats`; and, for the real adapter, the methods of connector_bridge.py's
-- `ConnectorBridge`, in `Connector`, which thread a state of the connector's own. An exception ends a
-- coroutine as it does in Python, with everything done so far kept. The life of an adapter, of the
-- runtime or of the state store is a list of the calls it is given.
--
-- Every loop of the modelled code but one runs over a list. The strategy loop has no end: `run` takes
-- the number of its polls, and what is proved holds for any number. Fuel is used only for routines of
-- the language: str of a number n runs on fuel n, which has at least as many units as n has digits,
-- and the digits of a Decimal are counted and written up to 400, where Decimal keeps 28.
--
-- Not modelled: logging, the time stamps that the database server fills, the REST API and the worker's
-- HTTP server and client, which pass values on; the candles and events of the real adapter, its live
-- Hummingbot connector, which is third-party code behind `Connector`, and the in-memory connector of
-- the tests; the upload of strategies, its validation and its YAML reader, and the subprocess in which
-- a strategy runs; scripts, migrations and backups. Two coroutines never interleave in this model; the
-- slot's compare-and-set is a single step.
pub mod Base
pub mod Decimal
pub mod Text
pub mod Strategies
pub mod Action
pub mod Enums
pub mod Protocol
pub mod Models
pub mod World
pub mod Repositories
pub mod Recovery
pub mod Controllers
pub mod Worker
pub mod Strategy
pub mod Safety
pub mod Examples
