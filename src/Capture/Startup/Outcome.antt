-- ===== src/Capture/Startup/Outcome.antt =====
-- How `start` of src/dbus_event_log/method_capture.py ends.
use dbus_event_log.Prelude.{◌≡◌, ◌⊎◌, String, Bool, true, false, none, some, List, is_some}
use dbus_event_log.Capture.{Capture, Result, ok, err, CaptureError}
use dbus_event_log.Capture.Startup.{StartEnv, Stage}

-- Without a connection there is no filter to remove.
abbrev IsReleasable : Capture → Type 0
IsReleasable c = c.connection ≡ none → c.filter_id ≡ none

-- Whatever a stage met, it can be closed; one that goes on has reached this.
abbrev Reaches : (Capture → Type 0) → Stage → Type 0
Reaches P st = IsReleasable st.1 × (st.0 ≡ true → P st.1)

-- Both connections are there, with the filter.
record IsOpen (env : StartEnv) (c : Capture) : Type 0 where
  lookup : c.lookup ≡ env.lookup
  connection : c.connection ≡ env.connection
  filter_id : c.filter_id ≡ some env.filter_id
  present : is_some c.connection ≡ true

abbrev IsMonitor : StartEnv → Capture → Type 0
IsMonitor env c = IsOpen env c × (c.ready ≡ true)

-- What a capture has that started.
pub record IsStarted (env : StartEnv) (c : Capture) : Type 0 where
  pub lookup : c.lookup ≡ env.lookup
  pub connection : c.connection ≡ env.connection
  pub filter_id : c.filter_id ≡ some env.filter_id
  pub ready : c.ready ≡ true
  pub barrier : c.discovery_barrier ≡ true
  pub overflow : c.overflow ≡ false

-- Nothing that `start` opened is left.
pub record IsReleased (c : Capture) : Type 0 where
  pub lookup : c.lookup ≡ none
  pub connection : c.connection ≡ none
  pub filter_id : c.filter_id ≡ none
  pub ready : c.ready ≡ false

abbrev IsWatched : StartEnv → Capture → Type 0
IsWatched env c = IsMonitor env c × (c.discovery_barrier ≡ true)

-- How the owners are restored.
abbrev Restored : Capture → Result Capture → Type 0
Restored c r =
    ((e : CaptureError) × (r ≡ err e))
    ⊎ ((owners : List (String × String)) × (r ≡ ok (record c { owners = owners }))
        × (c.overflow ≡ false))

-- A close that raises nothing releases everything.
record IsClosed (r : Bool × Capture) : Type 0 where
  returned : r.0 ≡ true
  released : IsReleased r.1

-- What `stop_capture` leaves when it raises nothing.
record IsStopped (c : Capture) (r : Bool × Capture) : Type 0 where
  returned : r.0 ≡ true
  connection : r.1.connection ≡ none
  filter_id : r.1.filter_id ≡ none
  ready : r.1.ready ≡ false
  lookup : r.1.lookup ≡ c.lookup

-- What `start` promises of its result.
abbrev pub Ends : StartEnv → Result (Unit {0}) × Capture → Type 0
Ends env r =
    ((r.0 ≡ ok tt) × IsStarted env r.1) ⊎ ((e : CaptureError) × (r.0 ≡ err e) × IsReleased r.1)
