-- ===== src/Capture/Startup.antt =====
-- `start` of src/dbus_event_log/method_capture.py. The filter runs on Gio's thread meanwhile: what
-- it sees up to the answer to BecomeMonitor, and from then on until the wait for the barrier ends,
-- are two lists of messages; it and the discovery write different fields, so their order is left
-- open. What Gio and the daemon answer is an argument.
pub mod Outcome
use dbus_event_log.Prelude.{
  ℕ, ◌≡◌, ◌≢◌, ◌⊎◌, inl, inr, ap, sym, subst, String, Bool, true, false, not, ◌&&◌, Option, none,
  some, List, [], ◌∷◌, is_some, if◌then◌else◌, if_elim,
}
use dbus_event_log.Config.{DBusConfig}
use dbus_event_log.Capture.{
  Capture, init, Connection, Message, Result, ok, err, CaptureError, gio_missing, monitor_refused,
  close_failed,
}
use dbus_event_log.Capture.Filter.{filter}
use dbus_event_log.Capture.Owners.{discover_owners, restore_initial_owners}
use dbus_event_log.Capture.Poll.{close, stop_capture}

-- `lookup` and `connection` are the two connections; `none` is a GLib.Error. Of the messages the
-- filter is told when, and whether they come in; `closes` and `lookup_closes` are whether the two
-- can be closed.
pub record StartEnv : Type 0 where
  pub has_gio : Bool
  pub lookup : Option Connection
  pub connection : Option Connection
  pub filter_id : ℕ
  pub before : List (ℕ × Bool × Message)
  pub becomes_monitor : Bool
  pub during : List (ℕ × Bool × Message)
  pub names : Option (List String)
  pub owner_of : String → Option String
  pub id_answers : Bool
  pub closes : Bool
  pub lookup_closes : Bool

-- What the filter sees one after the other.
unfoldable pub see : Capture → List (ℕ × Bool × Message) → Capture
see c [] = c
see c ((now, incoming, m) ∷ rest) = see (filter c now incoming m).0 rest

-- Whether the code goes on or an exception was raised, with the state.
abbrev pub Stage : Type 0
Stage = Bool × Capture

abbrev pub and_stage : Stage → (Capture → Stage) → Stage
and_stage (false, c) next = (false, c)
and_stage (true, c) next = next c

abbrev pub open_lookup : Option Connection → Capture → Stage
open_lookup none c = (false, c)
open_lookup (some k) c = (
  true,
  record c {
    lookup = some k;
    lookup_sender = k.unique_name;
    ignored_senders = k.unique_name ∷ c.ignored_senders;
  },
)

abbrev pub open_connection : Option Connection → ℕ → Capture → Stage
open_connection none filter_id c = (false, c)
open_connection (some k) filter_id c = (
  true,
  record c {
    connection = some k;
    filter_id = some filter_id;
    ignored_senders = k.unique_name ∷ c.ignored_senders;
  },
)

-- The call of `BecomeMonitor`.
abbrev pub become_monitor : StartEnv → Capture → Stage
become_monitor env c =
    let seen = see c env.before in
    if env.becomes_monitor then (true, record seen { ready = true }) else (false, seen)

abbrev pub discover_names : StartEnv → Option (List String) → Capture → Stage
discover_names env none c = (false, c)
discover_names env (some names) c =
    (true, record c { owners = discover_owners c.config env.owner_of names c.owners })

-- The owners of the names, `GetId`, and the wait for the barrier.
abbrev pub await_barrier : StartEnv → Capture → Stage
await_barrier env c = (env.id_answers && c.discovery_barrier, c)

abbrev pub restored : Result Capture → Capture → Stage
restored (err e) c = (false, c)
restored (ok c') c = (true, c')

-- The code of the `try`, up to each of its waits.
abbrev pub connecting : StartEnv → Capture → Stage
connecting env c =
    and_stage (open_lookup env.lookup c) (open_connection env.connection env.filter_id)

abbrev pub monitoring : StartEnv → Capture → Stage
monitoring env c = and_stage (connecting env c) (become_monitor env)

abbrev pub discovering : StartEnv → Capture → Stage
discovering env c =
    and_stage (monitoring env c) (λ d. discover_names env env.names (see d env.during))

abbrev pub watching : StartEnv → Capture → Stage
watching env c = and_stage (discovering env c) (await_barrier env)

abbrev pub run_stages : StartEnv → Capture → Stage
run_stages env c = and_stage (watching env c) (λ d. restored (restore_initial_owners d) d)

abbrev pub after_close : Bool × Capture → Result (Unit {0}) × Capture
after_close (true, c) = (err monitor_refused, c)
after_close (false, c) = (err close_failed, c)

-- Any exception closes the capture again and is raised as one error, but for one of closing it.
abbrev pub closed_or_started : StartEnv → Stage → Result (Unit {0}) × Capture
closed_or_started env (false, c) = after_close (close env.closes env.lookup_closes c)
closed_or_started env (true, c) = (ok tt, c)

-- `start`
unfoldable pub start : StartEnv → Capture → Result (Unit {0}) × Capture
start env c = if env.has_gio then closed_or_started env (run_stages env c) else (err gio_missing, c)

-- The fields that the filter leaves alone.
record SameTransport (a b : Capture) : Type 0 where
  lookup : a.lookup ≡ b.lookup
  connection : a.connection ≡ b.connection
  filter_id : a.filter_id ≡ b.filter_id
  stays_ready : b.ready ≡ true → a.ready ≡ true
