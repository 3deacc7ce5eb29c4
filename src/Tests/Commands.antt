-- ===== src/Tests/Commands.antt =====
-- The commands of src/dbus_event_log/cli.py at concrete inputs.
use dbus_event_log.Prelude.{
  ℕ, zero, suc, ◌-◌, ◌*◌, ◌≡◌, refl, ap, String, true, false, ◌||◌, Option, none, some, List, [],
  ◌∷◌, All, length, arith, string_eq,
}
use Prim.Native.Char.{char}
use dbus_event_log.Dict
use dbus_event_log.Config.{default_storage}
use dbus_event_log.Event.{pos}
use dbus_event_log.Storage.Time.{Formats, IsFaithful, Stamp}
use dbus_event_log.Storage.Tables.{Row, Database, dirty_entry, insert_row, find_event, mark_dirty}
use dbus_event_log.Storage.Refresh.{
  init_timestamp_index, refresh_tables, refresh_loop, pending_ids, new_index,
}
use dbus_event_log.Storage.Writes.{History, begin, next, inserted}
use dbus_event_log.Storage.Files.{Files, present, ok as stored_ok, new_database, init_schema}
use dbus_event_log.Storage.Query.{query, count, selected, selects, scanned_hits, source}
use dbus_event_log.Storage.Query.Results.{unlimited}
use dbus_event_log.Commands.{ok, sqlite_storage}
use dbus_event_log.Commands.Times.{TimeLib, last_char}
use dbus_event_log.Commands.Store.{cleanup, IsGuarded, cleanup-IsGuarded, days_of}
use dbus_event_log.Commands.Reading.{QueryOptions, query_sqlite, ExportOptions, export, json_file}
use dbus_event_log.Commands.Reading.Recent.{
  IsRelative, seconds, since_rows, IsSince, since_only, query_sqlite-IsSince,
}
use dbus_event_log.Commands.Reading.Complete.{export_filters, export-unlimited}
use dbus_event_log.Commands.Reading.Statistics.{stats, summary, stats-summary}
use dbus_event_log.Event.Payload.{to_mqtt_payload, from_mqtt_payload, from-to_mqtt_payload}
use dbus_event_log.Tests.Capture.Samples.{call_event}
use dbus_event_log.Tests.Rows.{formats, stored, with_both}
use dbus_event_log.Tests.Query.{history as written}
use dbus_event_log.Tests.Collation.{sqlite, sqlite-IsOrder}

-- Instants as tallies.
tally : ℕ → String
tally zero = "1"
tally (suc n) = String.◌∷◌ (char b'1' tt) (tally n)

untally : String → Option ℕ
untally String.[] = none
untally (String.◌∷◌ c String.[]) = some 0
untally (String.◌∷◌ c (String.◌∷◌ d s)) = elim (untally (String.◌∷◌ d s)) [
  | none ↦ none
  | some n ↦ some (suc n)
]

abbrev stamp_of : Option ℕ → Option Stamp
stamp_of none = none
stamp_of (some t) = some (record { local = t; offset = some (pos 0) })

abbrev tallies : Formats
tallies = record {
  fromisoformat = λ s. stamp_of (untally s);
  isoformat = tally;
  uuid_text = tally;
  json_arguments = λ values. "[]";
  json_kwargs = λ extra. "{}";
}

untally-tally : (n : ℕ) → untally (tally n) ≡ some n
unfolding untally tally
untally-tally zero = refl
untally-tally (suc zero) = refl
untally-tally (suc (suc n)) =
    ap (λ (o : Option ℕ). elim o [ none ↦ none | some m ↦ some (suc m) ]) (untally-tally (suc n))

tallies-IsFaithful : IsFaithful tallies
tallies-IsFaithful = record {
  reads_back = λ t. ap stamp_of (untally-tally t);
  ids_differ = λ a b e. ground (arith, untally-tally a, untally-tally b, ap untally e);
}

abbrev tallied : Database
tallied = record {
  version = 2 ∷ [];
  events = stored "a" "1" ∷ stored "b" "11111" ∷ [];
  index = some (("b", dirty_entry) ∷ ("a", dirty_entry) ∷ []);
}

history : History tallies (new_database tallies) tallied
unfolding init_schema init_timestamp_index refresh_tables refresh_loop pending_ids new_index
    insert_row find_event mark_dirty Dict.remove
history = next (next begin (inserted (stored "a" "1") refl)) (inserted (stored "b" "11111") refl)

abbrev tallied_files : Files
tallied_files = record {
  config = default_storage;
  active = present tallied;
  archives = [];
  occupied = [];
}

abbrev one_second : TimeLib
one_second = record { int = λ s. some (pos 1); parse = λ s. none }

abbrev options : QueryOptions
options = record {
  since = none;
  until = none;
  service = none;
  event_type = none;
  limit = pos 100;
  offset = pos 0;
}

relative : IsRelative one_second "1s" 1 1_000_000
unfolding last_char
relative = record { unit_given = seconds; number = refl }

query_sqlite-IsSince_example :
    ((query_sqlite tallies sqlite one_second 1_000_003 1_000_003
        (since_only "1s" options)
        tallied_files).0
      ≡ ok (since_rows tallies sqlite (1_000_003 - 1 * 1_000_000) options tallied))
    × All
        (IsSince tallies (1_000_003 - 1 * 1_000_000))
        (since_rows tallies sqlite (1_000_003 - 1 * 1_000_000) options tallied)
unfolding untally
query_sqlite-IsSince_example =
    query_sqlite-IsSince tallies sqlite one_second 1_000_003 1_000_003 options tallied_files tallied
      "1s" 1 1_000_000 tallies-IsFaithful refl sqlite-IsOrder history refl relative (omega arith)

abbrev files : Files
files = record {
  config = default_storage;
  active = present with_both;
  archives = [];
  occupied = [];
}

cleanup-IsGuarded_example :
    IsGuarded formats
      (days_of (some 7) files)
      691_200_000_000
      (true || false)
      files
      (cleanup formats (some 7) true false 691_200_000_000 (sqlite_storage files))
cleanup-IsGuarded_example =
    cleanup-IsGuarded formats (some 7) true false 691_200_000_000 files with_both refl (omega arith)

stats-summary_example : (stats formats sqlite files).0 ≡ stored_ok (summary sqlite with_both.events)
stats-summary_example = stats-summary formats sqlite files with_both refl

abbrev everything : ExportOptions
everything = record {
  since = none;
  until = none;
  service = none;
  event_type = none;
  is_json = true;
}

two_events : (count formats sqlite (export_filters everything none none) files).0 ≡ stored_ok 2
unfolding count source selected selects scanned_hits
two_events = refl

export-unlimited_example :
    (rows : List Row) × ((query formats sqlite
        (unlimited (export_filters everything none none))
        files).0
      ≡ stored_ok rows)
    × ((export formats sqlite one_second 5 6 everything files).0 ≡ ok (json_file rows))
    × (length rows ≡ 2)
export-unlimited_example =
    export-unlimited formats sqlite one_second 5 6 everything files with_both none none
      (record { start = none; end_ = none }) 2 sqlite-IsOrder written refl refl refl refl refl
      two_events (omega arith)

from-to_mqtt_payload_example :
    from_mqtt_payload tallies untally (to_mqtt_payload tallies call_event) ≡ some call_event
from-to_mqtt_payload_example =
    from-to_mqtt_payload tallies untally call_event tallies-IsFaithful untally-tally
