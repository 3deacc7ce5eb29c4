-- ===== src/Timescale/Fetch.antt =====
-- `TimescaleDBStorage.query` of src/dbus_event_log/storage.py: its statement is built before a pool
-- is opened. The rows that the server finds are an argument.
use dbus_event_log.Prelude.{◌≡◌, refl, Option, none, some, List}
use dbus_event_log.Storage.Time.{Formats}
use dbus_event_log.Storage.Query.{Filters}
use dbus_event_log.Timescale.{UrlLib, Result, ok, err, statement_failed}
use dbus_event_log.Timescale.Pool.{PoolEnv, Session, ServerRow, get_pool}
use dbus_event_log.Timescale.Statement.{Statement, statement}

abbrev fetched : Option (List ServerRow) → Result (List ServerRow)
fetched none = err statement_failed
fetched (some rows) = ok rows

abbrev fetch :
    (Statement → Option (List ServerRow))
    → Statement
    → Result (Unit {0}) × Session
    → Result (List ServerRow) × Session
fetch answer st (err e, s) = (err e, s)
fetch answer st (ok done, s) = (fetched (answer st), s)

abbrev pub query_with :
    UrlLib
    → PoolEnv
    → (Statement → Option (List ServerRow))
    → Session
    → Result Statement
    → Result (List ServerRow) × Session
query_with lib env answer s (err e) = (err e, s)
query_with lib env answer s (ok st) = fetch answer st (get_pool lib env s)

-- `query`
unfoldable pub query :
    Formats
    → UrlLib
    → PoolEnv
    → (Statement → Option (List ServerRow))
    → Filters
    → Session
    → Result (List ServerRow) × Session
query f lib env answer q s = query_with lib env answer s (statement f q)

pub fetch-session :
    (answer : Statement → Option (List ServerRow)) (st : Statement)
    (r : Result (Unit {0}) × Session)
    → (fetch answer st r).1 ≡ r.1
fetch-session answer st (err e, s) = refl
fetch-session answer st (ok done, s) = refl
