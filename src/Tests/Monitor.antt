-- ===== src/Tests/Monitor.antt =====
-- `DBusMonitor` of src/dbus_event_log/monitor.py at a concrete input: a signal comes and is stored,
-- and a second one waits.
use dbus_event_log.Prelude.{◌++◌, ◌≡◌, refl, true, [], ◌∷◌, length}
use dbus_event_log.Config.{default_dbus}
use dbus_event_log.Monitor.{
  Monitor, Pending, fired, owner_changed, new_monitor, callback, schedule_event, Env, run_task,
  handle,
}
use dbus_event_log.Monitor.Accounting.{
  tagged, Reach, created, switched, came, ended, IsAccounted, Reach-IsAccounted,
}

abbrev env : Env
env = record { now = 5; new_id = 1; subscribe_calls = 4; stores = true }

abbrev soc_changed : Pending
soc_changed =
    fired "com.victronenergy.battery" [] "PropertiesChanged" "com.victronenergy.BusItem" "/Soc"
      ":1.9"

abbrev battery_gone : Pending
battery_gone = owner_changed "com.victronenergy.battery" ":1.9" ""

abbrev running : Monitor
running = record (new_monitor default_dbus) { running = true }

abbrev two_wait : Monitor
two_wait = record running { event_tasks = soc_changed ∷ battery_gone ∷ [] }

two_arrive : callback battery_gone (callback soc_changed running) ≡ two_wait
unfolding callback schedule_event
two_arrive = refl

signal_stored : length (run_task env [] soc_changed (battery_gone ∷ []) two_wait).0 ≡ 1
unfolding run_task handle
signal_stored = refl

two-Reach : Reach default_dbus two_wait (battery_gone ∷ soc_changed ∷ []) []
unfolding callback schedule_event
two-Reach = came battery_gone refl (came soc_changed refl (switched true [] created))

Reach-IsAccounted_example :
    IsAccounted
      (run_task env [] soc_changed (battery_gone ∷ []) two_wait).1
      (battery_gone ∷ soc_changed ∷ [])
      ([] ++ tagged soc_changed (run_task env [] soc_changed (battery_gone ∷ []) two_wait).0)
Reach-IsAccounted_example =
    Reach-IsAccounted default_dbus (run_task env [] soc_changed (battery_gone ∷ []) two_wait).1
      (battery_gone ∷ soc_changed ∷ [])
      ([] ++ tagged soc_changed (run_task env [] soc_changed (battery_gone ∷ []) two_wait).0)
      (ended env [] soc_changed (battery_gone ∷ []) refl two-Reach)
