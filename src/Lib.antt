-- ===== src/Lib.antt =====
-- The D-Bus event log of src/dbus_event_log/: what Venus OS services say on the system bus is
-- captured, stored in SQLite and published. This development models the core of it and what that
-- core promises.
--
-- The parts and their files:
--   Config    src/dbus_event_log/config.py: the settings that the modelled code reads.
--   Event     src/dbus_event_log/models.py: `DBusEvent`, its enumerations (Event/Kinds) and
--             `to_mqtt_payload` (Event/Payload).
--   Names     the test of a bus name against the configured patterns.
--   Capture   src/dbus_event_log/method_capture.py: `MethodCapture`. Capture/Filter is `_filter`,
--             which Gio's worker thread runs on each message and which fills a bounded queue;
--             Capture/Owners the table of name owners; Capture/Decode `_decode` and `_method_call`; Capture/Poll
--             `poll`, `stop_capture` and `close`, which the main loop runs and where closing a
--             connection may raise, Capture/Startup `start`. The other files of
--             Capture/ are proofs, and Capture/Steps the interleavings of the two threads.
--   Storage   src/dbus_event_log/storage.py: `SQLiteStorage`. Storage/Time is `_utc_timestamp`,
--             Storage/Tables the tables and triggers, Storage/Refresh the time index, Storage/Files
--             the active database and its archives: insert and rotate; Storage/Files/Retention is
--             cleanup and maintenance, Storage/Query `query` and `count`, Storage/Distinct
--             `get_services` and `get_event_types`. The other files are proofs.
--   Timescale  `TimescaleDBStorage` of the same file: Timescale its construction, Timescale/Pool the
--             pool and the inserts, Timescale/Statement the statement of a query and Timescale/Fetch
--             the query. Hosts, Checked and the files below Pool and Statement are proofs.
--   Commands  src/dbus_event_log/cli.py: Commands/Times `_parse_time`, Commands/Store the commands
--             that change the store, Commands/Reading those that read it, Commands/Output what is
--             shown. The files below Reading are proofs, but for Statistics, which has `stats` too.
--   Credentials  src/dbus_event_log/credentials.py: `read_password_file`.
--   Publisher  src/dbus_event_log/mqtt_publisher.py: `MQTTPublisher`; Publisher/Lifecycle is
--             what it sends and when, Publisher/Topics the topics, Publisher/Queue `AsyncMQTTPublisher`.
--   Monitor   src/dbus_event_log/monitor.py: callbacks, tasks, subscriptions and handlers of
--             `DBusMonitor`; Monitor/Accounting is the account of the signals, Monitor/Methods the
--             task that empties the method capture, Monitor/Lifecycle `start` and `stop`.
--   Prelude, Dict, Text  shared names, lists, Python's dictionaries as association lists, and its
--             `partition` and `split` of texts.
--   Tests     runs at concrete inputs.
--
-- A method that changes an object is a function from the state to the new state, with the returned
-- value or the exception beside it. The filter and the consumer share the queue under a lock, so an
-- interleaving is a sequence of whole steps. A transaction of SQLite is one step: it commits or
-- raises as a whole; one of TimescaleDB has its uncommitted rows and its COMMIT (Timescale/Pool). What Gio, SQLite, the file system, the clock and Python's text formats answer
-- is an argument: `Env` in Capture and in Monitor, `StartEnv` in Capture/Startup,
-- `BusEnv` and `StopEnv` in Monitor/Lifecycle, `Formats`,
-- `RotationEnv` and `Sqlite` in Storage, `UrlLib` and `PoolEnv` in Timescale, `TimeLib` in Commands.
-- The formats' documented behaviour is the hypothesis `IsFaithful`, that of SQLite's order of texts
-- `IsOrder`.
--
-- Fuel: `free_number` has one more than the largest number that a path takes, so it reaches a free
-- one (Storage/Files/Rotation); `refresh_loop` has one more round than the index has entries, and
-- each round cleans at least one (Storage/Index). The rounds of `poll_loop` are the
-- source's own limit of 64 messages; `dispatch_methods` counts passes, and one more than there are
-- queued messages is enough once the capture is stopped (Monitor/Methods/Drain).
--
-- Not modelled: the GLib dispatch loop of DBusMonitor and its maintenance task;
-- Click's options, logging and the printed words of the commands, and `_run_monitor`; environment
-- variables and YAML, which pydantic reads; asyncpg and the server's side of TimescaleDB. The scripts
-- under scripts/ and docker/ build and release the package and are no part of the program; most of
-- them are a vendored copy of another project's toolkit.
pub mod Prelude
pub mod Dict
pub mod Text
pub mod Names
pub mod Event
pub mod Config
pub mod Credentials
pub mod Capture
pub mod Storage
pub mod Timescale
pub mod Publisher
pub mod Monitor
pub mod Commands
pub mod Tests
