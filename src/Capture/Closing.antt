-- ===== src/Capture/Closing.antt =====
-- What `stop_capture` and `close` of src/dbus_event_log/method_capture.py leave of the two
-- connections, where closing them raises nothing.
use dbus_event_log.Prelude.{
  ◌≡◌, refl, ◌∙◌, Bool, true, false, Option, none, some, if◌then◌else◌, if_elim, arith,
}
use dbus_event_log.Capture.{Capture, Connection}
use dbus_event_log.Capture.Poll.{close_raises, stop_capture, close_lookup, close}

-- It returned without a connection to monitor with, and the lookup's is as before.
pub record HasStopped (c : Capture) (r : Bool × Capture) : Type 0 where
  pub returned : r.0 ≡ true
  pub connection : r.1.connection ≡ none
  pub ready : r.1.ready ≡ false
  pub lookup : r.1.lookup ≡ c.lookup

pub stop_capture-HasStopped :
    (works : Bool) (c : Capture) → works ≡ true → HasStopped c (stop_capture works c)
unfolding stop_capture
stop_capture-HasStopped works c w = by_connection c.connection refl
  where
    Stops : Option Connection → Type 0
    Stops o = HasStopped c (elim o [
      | none ↦ (true, record c { ready = false })
      | some k ↦
          if close_raises works k
          then (false, record c { ready = false })
          else (true, record c { ready = false; filter_id = none; connection = none })
    ])

    by_connection : (o : Option Connection) → c.connection ≡ o → Stops o
    by_connection none e = record { returned = refl; connection = e; ready = refl; lookup = refl }
    by_connection (some k) e =
        if_elim (HasStopped c) (close_raises works k) (λ t. absurd (ground (arith, t, w)))
          (λ _. record { returned = refl; connection = refl; ready = refl; lookup = refl })

-- It returned without any connection.
pub record HasShut (r : Bool × Capture) : Type 0 where
  pub returned : r.0 ≡ true
  pub connection : r.1.connection ≡ none
  pub ready : r.1.ready ≡ false
  pub lookup : r.1.lookup ≡ none

pub close-HasShut :
    (works lookup_works : Bool) (c : Capture)
    → works ≡ true
    → lookup_works ≡ true
    → HasShut (close works lookup_works c)
unfolding close
close-HasShut works lookup_works c w l = by_lookup c.lookup refl (stop_capture-HasStopped works c w)
  where
    by_lookup :
        (o : Option Connection)
        → c.lookup ≡ o
        → HasStopped c (stop_capture works c)
        → HasShut (close_lookup lookup_works o (stop_capture works c))
    by_lookup none e s = record {
      returned = s.returned;
      connection = s.connection;
      ready = s.ready;
      lookup = s.lookup ∙ e;
    }
    by_lookup (some k) e s =
        if_elim HasShut (close_raises lookup_works k) (λ t. absurd (ground (arith, t, l)))
          (λ _. record {
            returned = s.returned;
            connection = s.connection;
            ready = s.ready;
            lookup = refl;
          })
