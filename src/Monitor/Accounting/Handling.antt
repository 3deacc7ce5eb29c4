-- ===== src/Monitor/Accounting/Handling.antt =====
-- What the handlers of src/dbus_event_log/monitor.py store for a signal or a change of owners.
use dbus_event_log.Prelude.{
  some, ℕ, All, ◌+◌, ◌≡◌, refl, ap, sym, String, Bool, false, ◌&&◌, none, List, [], ◌∷◌, ◌++◌, any,
  str_eq, if◌then◌else◌, if_elim, arith,
}
use dbus_event_log.Config.{DBusConfig}
use dbus_event_log.Names.{name_selected}
use dbus_event_log.Event.{DBusEvent, Value}
use dbus_event_log.Event.Kinds.{EventType}
use dbus_event_log.Monitor.{
  change_type, Monitor, Pending, fired, owner_changed, Failure, handle, store_event,
  setup_signal_handlers, signal_event, change_event, Env, signal_recording, lifecycle_recording,
  is_given,
}

-- A task that was run, with an event that it stored.
abbrev pub Entry : Type 0
Entry = Pending × DBusEvent

-- The event that is to be stored for a signal or a change of owners.
pub data IsEventOf : Pending → DBusEvent → Type 0 where
  signal_of :
      {service : String} {arguments : List Value} {signal_name interface path sender : String}
      (e : DBusEvent)
      → e.event_type ≡ EventType.signal
      → e.service_name ≡ service
      → e.object_path ≡ path
      → e.interface ≡ some interface
      → e.member ≡ some signal_name
      → e.arguments ≡ arguments
      → e.source_unique_name ≡ some sender
      → IsEventOf (fired service arguments signal_name interface path sender) e
  change_of :
      {name old_owner new_owner : String} (e : DBusEvent)
      → e.event_type ≡ change_type old_owner new_owner
      → e.service_name ≡ name
      → e.member ≡ some "NameOwnerChanged"
      → e.arguments ≡ Value.text name ∷ Value.text old_owner ∷ Value.text new_owner ∷ []
      → e.source_unique_name ≡ some (if is_given old_owner then old_owner else new_owner)
      → IsEventOf (owner_changed name old_owner new_owner) e

signal_event-IsEventOf :
    (env : Env) (service : String) (arguments : List Value)
    (signal_name interface path sender : String)
    → IsEventOf
        (fired service arguments signal_name interface path sender)
        (signal_event env service arguments signal_name interface path sender)
unfolding signal_event
signal_event-IsEventOf env service arguments signal_name interface path sender =
    signal_of (signal_event env service arguments signal_name interface path sender) refl refl refl
      refl refl refl refl

change_event-IsEventOf :
    (env : Env) (name old_owner new_owner : String)
    → IsEventOf (owner_changed name old_owner new_owner) (change_event env name old_owner new_owner)
unfolding change_event
change_event-IsEventOf env name old_owner new_owner =
    change_of (change_event env name old_owner new_owner) refl refl refl refl refl

abbrev pub IsEntry : Entry → Type 0
IsEntry (p, e) = IsEventOf p e

abbrev pub tagged : Pending → List DBusEvent → List Entry
tagged p [] = []
tagged p (e ∷ rest) = (p, e) ∷ tagged p rest

abbrev pub weight : Bool → Bool → ℕ
weight is_ignored chosen = if is_ignored then 0 else if chosen then 1 else 0

-- The events that a callback is to give, if it is one of the chosen: none for an ignored signal.
abbrev pub due : DBusConfig → (Pending → Bool) → Pending → ℕ
due config chosen (fired service arguments signal_name interface path sender) =
    weight (any (str_eq signal_name) config.ignored_signals)
      (chosen (fired service arguments signal_name interface path sender))
due config chosen (owner_changed name old_owner new_owner) =
    weight false (chosen (owner_changed name old_owner new_owner))

abbrev pub all_due : DBusConfig → (Pending → Bool) → List Pending → ℕ
all_due config chosen [] = 0
all_due config chosen (p ∷ rest) = due config chosen p + all_due config chosen rest

-- The entries whose task is one of the chosen.
abbrev pub tally : (Pending → Bool) → List Entry → ℕ
tally chosen [] = 0
tally chosen ((p, e) ∷ rest) = weight false (chosen p) + tally chosen rest

pub all_due-append :
    (config : DBusConfig) (chosen : Pending → Bool) (a b : List Pending)
    → all_due config chosen (a ++ b) ≡ all_due config chosen a + all_due config chosen b
all_due-append config chosen [] b = omega arith
all_due-append config chosen (p ∷ a) b = omega (arith, all_due-append config chosen a b)

pub tally-append :
    (chosen : Pending → Bool) (a b : List Entry)
    → tally chosen (a ++ b) ≡ tally chosen a + tally chosen b
tally-append chosen [] b = omega arith
tally-append chosen (x ∷ a) b = omega (arith, tally-append chosen a b)

-- What handling leaves, and that without a failure it stores what is due.
pub record IsHandled (p : Pending) (m : Monitor) (r : List DBusEvent × Monitor) : Type 0 where
  pub config : r.1.config ≡ m.config
  pub tasks : r.1.event_tasks ≡ m.event_tasks
  pub genuine : All (IsEventOf p) r.0
  pub unfailed :
      r.1.failure ≡ none
      → (m.failure ≡ none)
        × ((chosen : Pending → Bool) → tally chosen (tagged p r.0) ≡ due m.config chosen p)

store_event-IsHandled :
    (env : Env) (failure : Failure) (e : DBusEvent) (p : Pending) (m : Monitor)
    → IsEventOf p e
    → ((chosen : Pending → Bool) → due m.config chosen p ≡ weight false (chosen p))
    → IsHandled p m (store_event env failure e m)
store_event-IsHandled env failure e p m is_event one =
    if_elim (IsHandled p m) env.stores
      (λ _. record {
        config = refl;
        tasks = refl;
        genuine = (is_event, tt);
        unfailed = λ h. (h, λ chosen. omega (arith, one chosen));
      })
      (λ _. record {
        config = refl;
        tasks = refl;
        genuine = tt;
        unfailed = λ h. absurd (ground (arith, h));
      })

pub handle-IsHandled : (env : Env) (p : Pending) (m : Monitor) → IsHandled p m (handle env p m)
unfolding handle setup_signal_handlers
handle-IsHandled env (fired service arguments signal_name interface path sender) m =
    let p = fired service arguments signal_name interface path sender in
    let ignored = any (str_eq signal_name) m.config.ignored_signals in
    if_elim (IsHandled p m) ignored
      (λ e. record {
        config = refl;
        tasks = refl;
        genuine = tt;
        unfailed = λ h. (h, λ chosen. ap (λ b. weight b (chosen p)) (sym e));
      })
      (λ e.
        store_event-IsHandled env signal_recording
          (signal_event env service arguments signal_name interface path sender) p m
          (signal_event-IsEventOf env service arguments signal_name interface path sender)
          (λ chosen. ap (λ b. weight b (chosen p)) e))
handle-IsHandled env (owner_changed name old_owner new_owner) m =
    let p = owner_changed name old_owner new_owner in
    let e = change_event env name old_owner new_owner in
    let is_event = change_event-IsEventOf env name old_owner new_owner in
    if_elim (IsHandled p m)
      (m.running && is_given new_owner && name_selected m.config.services name)
      (λ _.
        let h =
          store_event-IsHandled env lifecycle_recording e p
            (setup_signal_handlers env.subscribe_calls name m) is_event (λ chosen. refl) in
        record { config = h.config; tasks = h.tasks; genuine = h.genuine; unfailed = h.unfailed })
      (λ _. store_event-IsHandled env lifecycle_recording e p m is_event (λ chosen. refl))
