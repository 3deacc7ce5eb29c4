-- ===== src/Monitor/Lifecycle/Idle.antt =====
-- What `stop` of src/dbus_event_log/monitor.py leaves.
use dbus_event_log.Prelude.{
  ℕ, ◌≡◌, refl, ap, ◌∙◌, sym, subst, ◌++◌, is_some, String, Bool, true, false, ◌&&◌, Option, none,
  some, List, [], ◌∷◌, any, length, str_eq, if◌then◌else◌, if_elim, arith,
}
use dbus_event_log.Event.{DBusEvent}
use dbus_event_log.Capture.{Capture}
use dbus_event_log.Capture.Poll.{stop_capture, close}
use dbus_event_log.Capture.Closing.{HasStopped, stop_capture-HasStopped, HasShut, close-HasShut}
use dbus_event_log.Names.{name_selected}
use dbus_event_log.Monitor.{
  Monitor, Pending, Env, handle, run_task, store_event, fired, owner_changed, is_given,
  signal_event, change_event, Failure, signal_recording, lifecycle_recording,
}
use dbus_event_log.Monitor.Lifecycle.{
  Life, StopEnv, Ending, returned, run_all, finish_tasks, waited, note_failure, finish_capture,
  after_stop_capture, close_capture, awaited, unsubscribe_all, after_unsubscribing, stop_methods,
  stop,
}

-- The monitor does not run, and the subscriptions are these.
record IsQuiet (keys : List String) (tasks : List Pending) (m : Monitor) : Type 0 where
  running : m.running ≡ false
  subscriptions : m.subscriptions ≡ keys
  event_tasks : m.event_tasks ≡ tasks

store_event-IsQuiet :
    (keys : List String) (tasks : List Pending) (env : Env) (failure : Failure) (e : DBusEvent)
    (m : Monitor)
    → IsQuiet keys tasks m
    → IsQuiet keys tasks (store_event env failure e m).1
store_event-IsQuiet keys tasks env failure e m h =
    if_elim (λ (r : List DBusEvent × Monitor). IsQuiet keys tasks r.1) env.stores (λ _. h)
      (λ _. record {
        running = h.running;
        subscriptions = h.subscriptions;
        event_tasks = h.event_tasks;
      })

handle-IsQuiet :
    (keys : List String) (tasks : List Pending) (env : Env) (p : Pending) (m : Monitor)
    → IsQuiet keys tasks m
    → IsQuiet keys tasks (handle env p m).1
unfolding handle
handle-IsQuiet keys tasks env (fired service arguments signal_name interface path sender) m h =
    if_elim (λ (r : List DBusEvent × Monitor). IsQuiet keys tasks r.1)
      (any (str_eq signal_name) m.config.ignored_signals) (λ _. h)
      (λ _.
        store_event-IsQuiet keys tasks env signal_recording
          (signal_event env service arguments signal_name interface path sender) m h)
handle-IsQuiet keys tasks env (owner_changed name old_owner new_owner) m h =
    if_elim (λ (r : List DBusEvent × Monitor). IsQuiet keys tasks r.1)
      (m.running && is_given new_owner && name_selected m.config.services name)
      (λ on. absurd (ground (arith, h.running, on)))
      (λ _.
        store_event-IsQuiet keys tasks env lifecycle_recording
          (change_event env name old_owner new_owner) m h)

run_all-IsQuiet :
    (keys : List String) (env : ℕ → Env) (l : List Pending) (m : Monitor)
    → IsQuiet keys l m
    → IsQuiet keys [] (run_all env l m).1
unfolding run_all run_task
run_all-IsQuiet keys env [] m h = h
run_all-IsQuiet keys env (p ∷ rest) m h =
    let one = run_task (env (length rest)) [] p rest m in
    run_all-IsQuiet keys env rest one.1 (
      handle-IsQuiet keys rest (env (length rest)) p (record m { event_tasks = rest })
        (record { running = h.running; subscriptions = h.subscriptions; event_tasks = refl }))

-- A capture was let go of, with both connections closed.
abbrev pub IsShut : Option Capture → Type 0
IsShut o =
    (c : Capture) × (o ≡ some c) × (c.connection ≡ none) × (c.lookup ≡ none) × (c.ready ≡ false)

-- Nothing of the monitor `before` is left running: each of its subscriptions was unsubscribed, and
-- its capture was let go of in a closed state.
pub record IsIdle (before l : Life) : Type 0 where
  pub running : l.monitor.running ≡ false
  pub subscriptions : l.monitor.subscriptions ≡ []
  pub event_tasks : l.monitor.event_tasks ≡ []
  pub maintenance_stop : l.maintenance_stop ≡ true
  pub maintenance_task : l.maintenance_task ≡ false
  pub dispatch_task : l.dispatch_task ≡ false
  pub executor : l.executor ≡ false
  pub capture : l.capture ≡ none
  pub method_task : l.method_task ≡ awaited before.method_task
  pub unsubscribed : l.unsubscribed ≡ before.unsubscribed ++ before.monitor.subscriptions
  pub shut : is_some before.capture ≡ true → IsShut l.dropped

-- It ended well, and nothing is left.
abbrev pub EndsIdle : Life → Ending × List DBusEvent × Life → Type 0
EndsIdle before r = (r.0 ≡ returned) × IsIdle before r.2

-- What `stop` has done before the tasks.
record IsHalted (before l : Life) : Type 0 where
  quiet : IsQuiet [] l.monitor.event_tasks l.monitor
  maintenance_stop : l.maintenance_stop ≡ true
  maintenance_task : l.maintenance_task ≡ false
  capture : l.capture ≡ none
  method_task : l.method_task ≡ awaited before.method_task
  unsubscribed : l.unsubscribed ≡ before.unsubscribed ++ before.monitor.subscriptions
  shut : is_some before.capture ≡ true → IsShut l.dropped

finish_tasks-EndsIdle :
    (env : StopEnv) (recorded : List DBusEvent) (before l : Life)
    → IsHalted before l
    → EndsIdle before (finish_tasks env recorded l)
finish_tasks-EndsIdle env recorded before l h =
    let q = run_all-IsQuiet [] env.tasks l.monitor.event_tasks l.monitor h.quiet in
    (
      refl,
      record {
        running = q.running;
        subscriptions = q.subscriptions;
        event_tasks = q.event_tasks;
        maintenance_stop = h.maintenance_stop;
        maintenance_task = h.maintenance_task;
        dispatch_task = refl;
        executor = refl;
        capture = h.capture;
        method_task = h.method_task;
        unsubscribed = h.unsubscribed;
        shut = h.shut;
      },
    )

note_failure-IsQuiet :
    (failed : Bool) (m : Monitor)
    → IsQuiet [] m.event_tasks m
    → IsQuiet [] (note_failure failed m).event_tasks (note_failure failed m)
note_failure-IsQuiet true m h = record {
  running = h.running;
  subscriptions = h.subscriptions;
  event_tasks = refl;
}
note_failure-IsQuiet false m h = h

-- The state in which `stop` waits for the tasks that it has.
record IsHalting (before l : Life) : Type 0 where
  quiet : IsQuiet [] l.monitor.event_tasks l.monitor
  maintenance_stop : l.maintenance_stop ≡ true
  unsubscribed : l.unsubscribed ≡ before.unsubscribed ++ before.monitor.subscriptions

close_capture-EndsIdle :
    (env : StopEnv) (recorded : List DBusEvent) (before l : Life) (r : Bool × Capture)
    → HasShut r
    → l.maintenance_task ≡ false
    → l.method_task ≡ awaited before.method_task
    → IsHalting before l
    → EndsIdle before (close_capture env recorded l r)
close_capture-EndsIdle env recorded before l (false, c) shut kept task h =
    absurd (ground (arith, shut.returned))
close_capture-EndsIdle env recorded before l (true, c) shut kept task h =
    finish_tasks-EndsIdle env recorded before (record l { capture = none; dropped = some c })
      (record {
        quiet = h.quiet;
        maintenance_stop = h.maintenance_stop;
        maintenance_task = kept;
        capture = refl;
        method_task = task;
        unsubscribed = h.unsubscribed;
        shut = λ _. (c, refl, shut.connection, shut.lookup, shut.ready);
      })

finish_capture-EndsIdle :
    (env : StopEnv) (before l : Life) (c : Capture)
    → env.closes ≡ true
    → env.lookup_closes ≡ true
    → l.maintenance_task ≡ false
    → l.method_task ≡ before.method_task
    → IsHalting before l
    → EndsIdle before (finish_capture env l (some c))
finish_capture-EndsIdle env before l c closes lookup_closes kept task h =
    let m = waited env l.method_task c in
    close_capture-EndsIdle env m.recorded before
      (record l { monitor = note_failure m.failed l.monitor; method_task = awaited l.method_task })
      (close env.closes env.lookup_closes m.capture)
      (close-HasShut env.closes env.lookup_closes m.capture closes lookup_closes) kept
      (ap awaited task)
      (record {
        quiet = note_failure-IsQuiet m.failed l.monitor h.quiet;
        maintenance_stop = h.maintenance_stop;
        unsubscribed = h.unsubscribed;
      })

stop_methods-EndsIdle :
    (env : StopEnv) (before l : Life) (o : Option Capture)
    → env.closes ≡ true
    → env.lookup_closes ≡ true
    → l.capture ≡ o
    → before.capture ≡ o
    → l.method_task ≡ before.method_task
    → IsHalting before l
    → EndsIdle before (stop_methods env l o)
stop_methods-EndsIdle env before l none closes lookup_closes e had task h =
    finish_tasks-EndsIdle env [] before
      (record l { maintenance_task = false; method_task = awaited l.method_task })
      (record {
        quiet = h.quiet;
        maintenance_stop = h.maintenance_stop;
        maintenance_task = refl;
        capture = e;
        method_task = ap awaited task;
        unsubscribed = h.unsubscribed;
        shut = λ some_capture. absurd (ground (arith, had, some_capture));
      })
stop_methods-EndsIdle env before l (some c) closes lookup_closes e had task h =
    by_stop (stop_capture env.closes c) (stop_capture-HasStopped env.closes c closes)
  where
    by_stop : (r : Bool × Capture) → HasStopped c r → EndsIdle before (after_stop_capture env l r)
    by_stop (false, d) s = absurd (ground (arith, s.returned))
    by_stop (true, d) s =
        finish_capture-EndsIdle env before (record l { maintenance_task = false; capture = some d })
          d closes lookup_closes refl task
          (record {
            quiet = h.quiet;
            maintenance_stop = h.maintenance_stop;
            unsubscribed = h.unsubscribed;
          })

unsubscribe_all-all :
    (works : String → Bool) (keys : List String)
    → ((key : String) → works key ≡ true)
    → unsubscribe_all works keys ≡ (true, keys)
unfolding unsubscribe_all
unsubscribe_all-all works [] all = refl
unsubscribe_all-all works (key ∷ rest) all =
    let others = unsubscribe_all works rest in
    ap (λ b. if b then (others.0, key ∷ others.1) else (false, [])) (all key)
    ∙ ap (λ (r : Bool × List String). (r.0, key ∷ r.1)) (unsubscribe_all-all works rest all)

pub stop-EndsIdle :
    (env : StopEnv) (l : Life)
    → ((key : String) → env.unsubscribes key ≡ true)
    → env.closes ≡ true
    → env.lookup_closes ≡ true
    → EndsIdle l (stop env l)
unfolding stop
stop-EndsIdle env l unsubscribes closes lookup_closes =
    let halted = record l {
      monitor = record l.monitor { running = false };
      maintenance_stop = true;
    } in
    subst (λ r. EndsIdle l (after_unsubscribing env halted r))
      (sym (unsubscribe_all-all env.unsubscribes l.monitor.subscriptions unsubscribes))
      (stop_methods-EndsIdle env l
        (record halted {
          monitor = record halted.monitor { subscriptions = [] };
          unsubscribed = l.unsubscribed ++ l.monitor.subscriptions;
        })
        l.capture closes lookup_closes refl refl refl
        (record {
          quiet = record { running = refl; subscriptions = refl; event_tasks = refl };
          maintenance_stop = refl;
          unsubscribed = refl;
        }))
