-- ===== src/Timescale/Pool.antt =====
-- `_get_pool`, `insert`, `insert_batch` and `close` of `TimescaleDBStorage` in
-- src/dbus_event_log/storage.py. The lock makes each call of `_get_pool` that opens a pool, and
-- each `close`, one step. What asyncpg and the server answer is an argument.
pub mod Balance
pub mod Batches
use mathlib.Core.Option
use dbus_event_log.Prelude.{
  ℕ, zero, suc, ◌+◌, ◌≡◌, refl, String, Bool, true, false, not, Option, none, some, List, [], ◌∷◌,
  ◌++◌, length, ltb, if◌then◌else◌, if_elim, arith, ◌⊎◌, inl, inr, ap, sym, ◌∙◌, subst, Bool-cases,
}
use dbus_event_log.Event.{DBusEvent, Value, Extra}
use dbus_event_log.Event.Kinds.{event_type_value, signal_type_value}
use dbus_event_log.Storage.Time.{Formats}
use dbus_event_log.Timescale.{
  UrlLib, Result, ok, err, TimescaleError, unreadable_password, connection_failed, schema_failed,
  statement_failed, Ssl, Timescale, validate_password_source,
}

-- `read` is `read_password_file`; `creates` and `schema_works` are whether `create_pool` and the
-- statements of `_init_schema` succeed (a cancellation is a failure); `failing` is the first INSERT
-- that raises; `commits` is whether the COMMIT of a transaction succeeds.
pub record PoolEnv : Type 0 where
  pub read : String → Option (List ℕ)
  pub creates : Bool
  pub schema_works : Bool
  pub failing : Option ℕ
  pub commits : Bool

-- The calls that open and close pools.
pub data PoolCall : Type 0 where
  create : Ssl → Option (List ℕ) → PoolCall
  close_pool : PoolCall

-- A row of the server's table, with the values as they are sent.
pub record ServerRow : Type 0 where
  pub id : String
  pub timestamp : ℕ
  pub event_type : String
  pub service_name : String
  pub object_path : String
  pub interface : Option String
  pub member : Option String
  pub signal_type : Option String
  pub arguments : List Value
  pub kwargs : Extra
  pub source_unique_name : Option String
  pub destination_unique_name : Option String
  pub message_serial : Option ℕ
  pub error_name : Option String
  pub error_message : Option String
  pub state_from : Option String
  pub state_to : Option String

-- The storage, the table of the server, and the calls so far.
pub record Session : Type 0 where
  pub storage : Timescale
  pub table : List ServerRow
  pub calls : List PoolCall

abbrev password_of_file : Option String → (String → Option (List ℕ)) → Result (Option (List ℕ))
password_of_file none read = ok none
password_of_file (some path) read = elim (read path) [
  | none ↦ err unreadable_password
  | some p ↦ ok (some p)
]

abbrev pub with_calls : Session → Bool → List PoolCall → Session
with_calls s has_pool calls = record s {
  storage = record s.storage { has_pool = has_pool };
  calls = s.calls ++ calls;
}

-- A pool whose schema failed is closed again.
abbrev pub open_pool : PoolEnv → Session → Result (Option (List ℕ)) → Result (Unit {0}) × Session
open_pool env s (err e) = (err e, s)
open_pool env s (ok password) =
    if not env.creates
    then (err connection_failed, s)
    else if not env.schema_works
    then (err schema_failed, with_calls s false (create s.storage.ssl password ∷ close_pool ∷ []))
    else (ok tt, with_calls s true (create s.storage.ssl password ∷ []))

abbrev pub open_checked : PoolEnv → Session → Result (Unit {0}) → Result (Unit {0}) × Session
open_checked env s (err e) = (err e, s)
open_checked env s (ok done) =
    open_pool env s (password_of_file s.storage.config.timescaledb_password_file env.read)

-- `_get_pool`
unfoldable pub get_pool : UrlLib → PoolEnv → Session → Result (Unit {0}) × Session
get_pool lib env s =
    if s.storage.has_pool
    then (ok tt, s)
    else open_checked env s (validate_password_source lib s.storage.config)

-- The values of `_insert_event`.
unfoldable pub server_row : Formats → DBusEvent → ServerRow
server_row f e = record {
  id = f.uuid_text e.id;
  timestamp = e.timestamp;
  event_type = event_type_value e.event_type;
  service_name = e.service_name;
  object_path = e.object_path;
  interface = e.interface;
  member = e.member;
  signal_type = Option.map signal_type_value e.signal_type;
  arguments = e.arguments;
  kwargs = e.kwargs;
  source_unique_name = e.source_unique_name;
  destination_unique_name = e.destination_unique_name;
  message_serial = e.message_serial;
  error_name = e.error_name;
  error_message = e.error_message;
  state_from = e.state_from;
  state_to = e.state_to;
}

-- One connection of the pool: the table, the rows of an open transaction, and whether one is open.
pub record Connection : Type 0 where
  pub table : List ServerRow
  pub uncommitted : List ServerRow
  pub in_transaction : Bool

-- `_insert_event` where the server accepts the row: outside a transaction it is committed at once.
unfoldable pub insert_event : Formats → DBusEvent → Connection → Connection
insert_event f e c =
    if c.in_transaction
    then record c { uncommitted = c.uncommitted ++ server_row f e ∷ [] }
    else record c { table = c.table ++ server_row f e ∷ [] }

-- The calls of `_insert_event`, up to the one that raises; whether none did, and the connection.
unfoldable pub insert_events : Formats → Option ℕ → List DBusEvent → Connection → Bool × Connection
insert_events f failing [] c = (true, c)
insert_events f (some zero) (e ∷ rest) c = (false, c)
insert_events f (some (suc n)) (e ∷ rest) c = insert_events f (some n) rest (insert_event f e c)
insert_events f none (e ∷ rest) c = insert_events f none rest (insert_event f e c)

abbrev pub begin_transaction : Connection → Connection
begin_transaction c = record c { uncommitted = []; in_transaction = true }

abbrev pub roll_back : Connection → Connection
roll_back c = record c { uncommitted = []; in_transaction = false }

abbrev pub commit : Connection → Connection
commit c = record c { table = c.table ++ c.uncommitted; uncommitted = []; in_transaction = false }

-- The end of `conn.transaction()`: an exception rolls back, as a COMMIT that fails does.
abbrev pub end_transaction : Bool → Bool × Connection → Bool × Connection
end_transaction commits (false, c) = (false, roll_back c)
end_transaction commits (true, c) = if commits then (true, commit c) else (false, roll_back c)

abbrev pub transaction : PoolEnv → (Connection → Bool × Connection) → Connection → Bool × Connection
transaction env body c = end_transaction env.commits (body (begin_transaction c))

abbrev pub acquire : Session → Connection
acquire s = record { table = s.table; uncommitted = []; in_transaction = false }

-- A connection that goes back to the pool.
abbrev pub release : Session → Bool × Connection → Result (Unit {0}) × Session
release s (false, c) = (err statement_failed, record s { table = c.table })
release s (true, c) = (ok tt, record s { table = c.table })

-- `async with pool.acquire() as conn`, after `_get_pool`.
abbrev pub with_connection :
    (Connection → Bool × Connection) → Result (Unit {0}) × Session → Result (Unit {0}) × Session
with_connection body (err e, s) = (err e, s)
with_connection body (ok done, s) = release s (body (acquire s))

-- `insert`
unfoldable pub insert :
    Formats → UrlLib → PoolEnv → DBusEvent → Session → Result (Unit {0}) × Session
insert f lib env e s = with_connection (insert_events f env.failing (e ∷ [])) (get_pool lib env s)

-- `insert_batch`
unfoldable pub insert_batch :
    Formats → UrlLib → PoolEnv → List DBusEvent → Session → Result (Unit {0}) × Session
insert_batch f lib env [] s = (ok tt, s)
insert_batch f lib env (e ∷ rest) s =
    with_connection (transaction env (insert_events f env.failing (e ∷ rest))) (get_pool lib env s)

-- `close`
unfoldable pub close : Session → Session
close s = if s.storage.has_pool then with_calls s false (close_pool ∷ []) else s
