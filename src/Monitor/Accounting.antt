-- ===== src/Monitor/Accounting.antt =====
-- The account of the signals in src/dbus_event_log/monitor.py: which are stored and which wait.
pub mod Handling
use dbus_event_log.Prelude.{
  some, ℕ, All, ◌+◌, ◌≤◌, ◌≡◌, refl, ap, sym, String, Bool, true, false, ◌&&◌, none, List, [], ◌∷◌,
  ◌++◌, any, length, length-append, leb, str_eq, if◌then◌else◌, if_elim, arith,
}
use dbus_event_log.Config.{DBusConfig}
use dbus_event_log.Names.{name_selected}
use dbus_event_log.Event.{DBusEvent, Value}
use dbus_event_log.Event.Kinds.{EventType}
use dbus_event_log.Monitor.{
  change_type, Monitor, new_monitor, Pending, fired, owner_changed, Failure, callback,
  schedule_event, handle, store_event, run_task, setup_signal_handlers, signal_event, change_event,
  Env, signal_recording, lifecycle_recording, is_given,
}
pub use dbus_event_log.Monitor.Accounting.Handling.{
  Entry, IsEventOf, IsEntry, tagged, weight, due, all_due, tally, all_due-append, tally-append,
  IsHandled, handle-IsHandled,
}

-- The queue is bounded; every stored event is the one of its task; and unless a failure is raised,
-- the callbacks that were due are, each as many times, those stored and those of the waiting tasks.
pub record IsAccounted (m : Monitor) (arrived : List Pending) (stored : List Entry) : Type 0 where
  pub bounded : length m.event_tasks ≤ m.config.max_pending_events
  pub genuine : All IsEntry stored
  pub balance :
      m.failure ≡ none
      → (chosen : Pending → Bool)
      → all_due m.config chosen arrived
        ≡ tally chosen stored + all_due m.config chosen m.event_tasks

callback-IsAccounted :
    (p : Pending) (m : Monitor) (arrived : List Pending) (stored : List Entry)
    → m.running ≡ true
    → IsAccounted m arrived stored
    → IsAccounted (callback p m) (p ∷ arrived) stored
unfolding callback schedule_event
callback-IsAccounted p m arrived stored running h =
    let Goal : Monitor → Type 0 = λ x. IsAccounted x (p ∷ arrived) stored in
    if_elim Goal m.running
      (λ _.
        if_elim Goal (leb m.config.max_pending_events (length m.event_tasks))
          (λ _. record {
            bounded = h.bounded;
            genuine = h.genuine;
            balance = λ f. absurd (ground (arith, f));
          })
          (λ room. record {
            bounded = fits m.event_tasks m.config.max_pending_events room;
            genuine = h.genuine;
            balance = λ f chosen.
                omega (
                  arith,
                  h.balance f chosen,
                  all_due-append m.config chosen m.event_tasks (p ∷ []),
                );
          }))
      (λ off. absurd (ground (arith, running, off)))
  where
    fits :
        (tasks : List Pending) (bound : ℕ)
        → leb bound (length tasks) ≡ false
        → length (tasks ++ p ∷ []) ≤ bound
    fits tasks bound room = ground (arith, length-append tasks (p ∷ []))

IsEntry-append :
    (a : List Entry) (p : Pending) (l : List DBusEvent)
    → All IsEntry a
    → All (IsEventOf p) l
    → All IsEntry (a ++ tagged p l)
IsEntry-append (x ∷ a) p l h g = (h.0, IsEntry-append a p l h.1 g)
IsEntry-append [] p [] h g = tt
IsEntry-append [] p (e ∷ l) h g = (g.0, IsEntry-append [] p l tt g.1)

run_task-IsAccounted :
    (env : Env) (before : List Pending) (p : Pending) (after : List Pending) (m : Monitor)
    (arrived : List Pending) (stored : List Entry)
    → m.event_tasks ≡ before ++ p ∷ after
    → IsAccounted m arrived stored
    → IsAccounted
        (run_task env before p after m).1
        arrived
        (stored ++ tagged p (run_task env before p after m).0)
unfolding run_task
run_task-IsAccounted env before p after m arrived stored waiting h =
    let m' : Monitor = record m { event_tasks = before ++ after } in
    let done = handle-IsHandled env p m' in
    let r = handle env p m' in
    record {
      bounded = omega (
        arith,
        h.bounded,
        ap length waiting,
        length-append before (p ∷ after),
        length-append before after,
        ap length done.tasks,
        ap (λ (c : DBusConfig). c.max_pending_events) done.config,
      );
      genuine = IsEntry-append stored p r.0 h.genuine done.genuine;
      balance = λ f chosen.
          let ended = done.unfailed f in
          omega (
            arith,
            h.balance ended.0 chosen,
            ended.1 chosen,
            tally-append chosen stored (tagged p r.0),
            ap (all_due m.config chosen) waiting,
            all_due-append m.config chosen before (p ∷ after),
            all_due-append m.config chosen before after,
            ap (λ (c : DBusConfig). all_due c chosen r.1.event_tasks) done.config,
            ap (λ (c : DBusConfig). all_due c chosen arrived) done.config,
            ap (all_due m.config chosen) done.tasks,
          );
    }

-- What happens to a monitor: it starts and stops, callbacks come, and waiting tasks end in any
-- order. The indices are the callbacks that came while it ran, and the stored events with the tasks
-- that stored them.
pub data Reach (config : DBusConfig) : Monitor → List Pending → List Entry → Type 0 where
  created : Reach config (new_monitor config) [] []
  switched :
      {m : Monitor} {a : List Pending} {s : List Entry} (running : Bool)
      (subscriptions : List String)
      → Reach config m a s
      → Reach config (record m { running = running; subscriptions = subscriptions }) a s
  came :
      {m : Monitor} {a : List Pending} {s : List Entry} (p : Pending)
      → m.running ≡ true
      → Reach config m a s
      → Reach config (callback p m) (p ∷ a) s
  came_late :
      {m : Monitor} {a : List Pending} {s : List Entry} (p : Pending)
      → m.running ≡ false
      → Reach config m a s
      → Reach config (callback p m) a s
  ended :
      {m : Monitor} {a : List Pending} {s : List Entry} (env : Env) (before : List Pending)
      (p : Pending) (after : List Pending)
      → m.event_tasks ≡ before ++ p ∷ after
      → Reach config m a s
      → Reach config
          (run_task env before p after m).1
          a
          (s ++ tagged p (run_task env before p after m).0)

-- Whatever happens to a monitor, in whatever order its tasks end: no more tasks wait than
-- configured; every stored event is one of the signal or the change of owners whose task stored it:
-- it has its type, service, member, arguments and sender, and that of a signal also its path and
-- interface; and unless a failure is raised, the callbacks that came while it ran, less the ignored
-- signals, are, each as often as it came, exactly those stored and those that still wait.
pub Reach-IsAccounted :
    (config : DBusConfig) (m : Monitor) (arrived : List Pending) (stored : List Entry)
    → Reach config m arrived stored
    → IsAccounted m arrived stored
unfolding callback
Reach-IsAccounted config m a s created = record {
  bounded = omega arith;
  genuine = tt;
  balance = λ _ chosen. refl;
}
Reach-IsAccounted config m a s (switched running subscriptions past) =
    let h = Reach-IsAccounted config _ a s past in
    record { bounded = h.bounded; genuine = h.genuine; balance = h.balance }
Reach-IsAccounted config m a s (came {a = a'} p on past) =
    callback-IsAccounted p _ a' s on (Reach-IsAccounted config _ a' s past)
Reach-IsAccounted config m a s (came_late {m = m'} p off past) =
    if_elim (λ x. IsAccounted x a s) m'.running (λ on. absurd (ground (arith, on, off)))
      (λ _. Reach-IsAccounted config m' a s past)
Reach-IsAccounted config m a s (ended {s = s'} env before p after waiting past) =
    run_task-IsAccounted env before p after _ a s' waiting (Reach-IsAccounted config _ a s' past)
