-- ===== src/Tests/Query.antt =====
-- Queries of src/dbus_event_log/storage.py at concrete inputs: a database with an old and a new
-- event.
use dbus_event_log.Prelude.{
  ◌≡◌, refl, String, none, some, List, [], ◌∷◌, length, any, str_eq, string_eq,
}
use dbus_event_log.Dict
use dbus_event_log.Config.{default_storage}
use dbus_event_log.Event.{pos}
use dbus_event_log.Storage.Tables.{Row, insert_row, find_event, mark_dirty}
use dbus_event_log.Storage.Refresh.{
  init_timestamp_index, refresh_tables, refresh_loop, pending_ids, new_index,
}
use dbus_event_log.Storage.Time.{utc_timestamp, to_utc}
use dbus_event_log.Storage.Writes.{History, inserted, begin, next}
use dbus_event_log.Storage.Files.{Files, present, ok, new_database, init_schema}
use dbus_event_log.Storage.Files.Retention.{active_rows}
use dbus_event_log.Storage.Query.{
  Filters, Bounds, query, count, bounds_of, read_rows, scanned_hits, sorted, selected, selects,
  comes_before, rows_of_hits,
}
use dbus_event_log.Storage.Query.Results.{query-scan, count-query, unlimited}
use dbus_event_log.Storage.Distinct.{get_services, get_services-distinct, services_of, IsAscending}
use dbus_event_log.Tests.Rows.{formats, old_row, new_row, with_both}
use dbus_event_log.Tests.Collation.{sqlite, sqlite-IsOrder}

abbrev files : Files
files = record {
  config = default_storage;
  active = present with_both;
  archives = [];
  occupied = [];
}

abbrev everything : Filters
everything = record {
  start_time = some "0001-01-01T00:00:00+00:00";
  end_time = some "";
  service = none;
  event_type = none;
  limit = pos 10;
  offset = pos 0;
}

abbrev bounds : Bounds
bounds = record { start = some 0; end_ = none }

pub history : History formats (new_database formats) with_both
unfolding init_schema init_timestamp_index refresh_tables refresh_loop pending_ids new_index
    insert_row find_event mark_dirty Dict.remove
history = next (next begin (inserted old_row refl)) (inserted new_row refl)

valid : bounds_of formats everything ≡ ok bounds
unfolding utc_timestamp to_utc
valid = refl

latest_first :
    read_rows sqlite bounds everything (scanned_hits formats with_both.events)
    ≡ new_row ∷ old_row ∷ []
unfolding read_rows sorted selected selects comes_before rows_of_hits scanned_hits utc_timestamp
    to_utc
latest_first = refl

query-scan_example :
    ((query formats sqlite everything files).0
      ≡ ok (read_rows sqlite bounds everything (scanned_hits formats with_both.events)))
    × (active_rows (query formats sqlite everything files).1.active ≡ with_both.events)
query-scan_example =
    query-scan formats sqlite everything bounds files with_both sqlite-IsOrder history refl valid

count-query_example :
    (rows : List Row) × ((query formats sqlite (unlimited everything) files).0 ≡ ok rows)
    × ((count formats sqlite everything files).0 ≡ ok (length rows))
count-query_example =
    count-query formats sqlite everything bounds files with_both sqlite-IsOrder history refl valid

get_services-distinct_example :
    (names : List String) × ((get_services sqlite files).0 ≡ ok names)
    × IsAscending sqlite names
    × ((name : String) → any (str_eq name) names ≡ any (str_eq name) (services_of with_both.events))
get_services-distinct_example = get_services-distinct sqlite files with_both sqlite-IsOrder refl
