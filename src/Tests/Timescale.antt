-- ===== src/Tests/Timescale.antt =====
-- `TimescaleDBStorage` of src/dbus_event_log/storage.py at a concrete connection string.
use dbus_event_log.Prelude.{◌≡◌, refl, true, false, none, some, [], ◌∷◌, or_empty}
use dbus_event_log.Config.{StorageConfig, default_storage, timescaledb}
use dbus_event_log.Text.{has_char, before_char, after_char, from_char, split}
use dbus_event_log.Storage.Query.{Filters}
use dbus_event_log.Timescale.{
  UrlLib, Timescale, verified, ok, new_timescale, require_explicit_tcp_host,
  validate_password_source, all_explicit, is_explicit, address_of,
}
use dbus_event_log.Timescale.Checked.{IsChecked, new_timescale-IsChecked}
use dbus_event_log.Timescale.Pool.{
  PoolEnv, Session, insert, insert_batch, get_pool, close, create, close_pool, insert_event,
  insert_events,
}
use dbus_event_log.Timescale.Pool.Balance.{
  IsBalanced, constructed, inserted, closed_down, Reach-IsBalanced,
}
use dbus_event_log.Timescale.Pool.Batches.{IsAtomic, insert_batch-IsAtomic}
use dbus_event_log.Timescale.Statement.{statement}
use dbus_event_log.Timescale.Statement.Numbering.{Answers, asked, statement-Answers}
use dbus_event_log.Event.{pos}
use dbus_event_log.Event.Kinds.{state_transition}
use dbus_event_log.Tests.Samples.{soc_changed}
use dbus_event_log.Tests.Rows.{formats}

-- The parts of one URL.
abbrev parts : UrlLib
parts = record {
  urlsplit =
      λ s. some (record { netloc = "db:5432"; query = "sslmode=verify-full"; password = none });
  parse_qs = λ q. ("sslmode", "verify-full" ∷ []) ∷ [];
  parse_qs_blank = λ q. ("sslmode", "verify-full" ∷ []) ∷ [];
  unquote = λ s. s;
}

abbrev config : StorageConfig
config = record default_storage {
  backend = timescaledb;
  timescaledb_dsn = some "postgresql://db:5432/log?sslmode=verify-full";
}

abbrev storage : Timescale
storage = record {
  config = config;
  dsn = or_empty config.timescaledb_dsn;
  ssl = verified;
  has_pool = false;
}

accepted : new_timescale parts config ≡ ok storage
unfolding new_timescale require_explicit_tcp_host validate_password_source all_explicit is_explicit
    address_of has_char before_char after_char from_char split
accepted = refl

new_timescale-IsChecked_example : IsChecked parts config storage
new_timescale-IsChecked_example = new_timescale-IsChecked parts config storage accepted

-- A server whose schema fails.
abbrev broken : PoolEnv
broken = record {
  read = λ path. none;
  creates = true;
  schema_works = false;
  failing = none;
  commits = true;
}

-- A server that works.
abbrev working : PoolEnv
working = record {
  read = λ path. none;
  creates = true;
  schema_works = true;
  failing = none;
  commits = true;
}

abbrev fresh : Session
fresh = record { storage = storage; table = []; calls = [] }

-- A failed insert, one that works, and `close`.
abbrev closed_session : Session
closed_session =
    close
      (insert formats parts working soc_changed (insert formats parts broken soc_changed fresh).1).1

two_pools :
    closed_session.calls
    ≡ create verified none ∷ close_pool ∷ create verified none ∷ close_pool ∷ []
unfolding close insert get_pool insert_event insert_events validate_password_source
two_pools = refl

Reach-IsBalanced_example : IsBalanced closed_session
Reach-IsBalanced_example =
    Reach-IsBalanced formats parts storage closed_session refl
      (closed_down (inserted working soc_changed (inserted broken soc_changed (constructed []))))

insert_batch-IsAtomic_example : IsAtomic formats (soc_changed ∷ soc_changed ∷ []) fresh (
    insert_batch formats parts
      (record working { failing = some 1 })
      (soc_changed ∷ soc_changed ∷ [])
      fresh)
insert_batch-IsAtomic_example =
    insert_batch-IsAtomic formats parts (record working { failing = some 1 })
      (soc_changed ∷ soc_changed ∷ []) fresh

abbrev filters : Filters
filters = record {
  start_time = some "0001-01-09T00:00:00";
  end_time = none;
  service = some "battery";
  event_type = some state_transition;
  limit = pos 10;
  offset = pos 0;
}

statement-Answers_example : Answers filters (statement formats filters) (asked formats filters)
statement-Answers_example = statement-Answers formats filters
