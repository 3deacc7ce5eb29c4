-- ===== src/Storage.antt =====
-- src/dbus_event_log/storage.py: the SQLite backend. `Time` is the comparison of timestamps,
-- `Tables` the tables with their triggers, `Refresh` the rebuildable time index with its proofs in
-- `Index`, `Synced`, `PrimaryKey` and `Writes`, and `Files` the active database with its archives:
-- rotation, retention and maintenance. `Query` and `Distinct` read the database; `UniqueKeys` is a
-- proof for them.
--
-- SQLite itself is modelled by what the statements of the program mean: a table is a list of rows,
-- the table `event_timestamps`, whose primary key is the event's id, a dictionary. Each method runs
-- under the flock and commits or raises as a whole, so it is one step on the tables.
pub mod Time
pub mod Tables
pub mod Refresh
pub mod Files
pub mod Index
pub mod Synced
pub mod PrimaryKey
pub mod Writes
pub mod UniqueKeys
pub mod Query
pub mod Distinct
