-- ===== src/Capture/Steps.antt =====
-- The two threads of src/dbus_event_log/method_capture.py as interleaved steps: Gio calls `_filter`
-- at any moment, also between the `popleft` and the `_decode` of `poll`, and the owner of the
-- object may stop it.
use dbus_event_log.Prelude.{ℕ, Bool, String, List, ◌∷◌, ◌≡◌}
use dbus_event_log.Config.{DBusConfig}
use dbus_event_log.Capture.{Capture, Message, Queued, init}
use dbus_event_log.Capture.Filter.{filter}
use dbus_event_log.Capture.Decode.{Env, decode}
use dbus_event_log.Capture.Poll.{dequeue, stop_capture, close}
use dbus_event_log.Capture.Bounds.{
  IsBounded, init-IsBounded, filter-IsBounded, dequeue-IsBounded, decode-IsBounded,
  stop_capture-IsBounded, close-IsBounded,
}

pub data Step (c : Capture) : Capture → Type 0 where
  filtered : (now : ℕ) (incoming : Bool) (m : Message) → Step c (filter c now incoming m).0
  dequeued : (q : Queued) (rest : List Queued) → c.queue ≡ q ∷ rest → Step c (dequeue c q rest)
  decoded : (env : Env) (timestamp : ℕ) (m : Message) → Step c (decode env timestamp m c).1
  stopped : (works : Bool) → Step c (stop_capture works c).1
  closed : (works lookup_works : Bool) → Step c (close works lookup_works c).1

pub data Reach (s : Capture) : Capture → Type 0 where
  here : Reach s s
  next : {c d : Capture} → Reach s c → Step c d → Reach s d

Step-IsBounded : {c d : Capture} → Step c d → IsBounded c → IsBounded d
Step-IsBounded {c} (filtered now incoming m) v = filter-IsBounded c now incoming m v
Step-IsBounded {c} (dequeued q rest e) v = dequeue-IsBounded c q rest e v
Step-IsBounded {c} (decoded env t m) v = decode-IsBounded env t m c v
Step-IsBounded {c} (stopped works) v = stop_capture-IsBounded works c v
Step-IsBounded {c} (closed works lookup_works) v = close-IsBounded works lookup_works c v

Reach-invariant : {c d : Capture} → IsBounded c → Reach c d → IsBounded d
Reach-invariant v here = v
Reach-invariant v (next r s) = Step-IsBounded s (Reach-invariant v r)

-- However the two threads interleave, a capture never holds more queued events, queued bytes or
-- pending calls than its configuration allows, counts its queued bytes exactly, and caches at
-- most 256 identities.
pub Reach-IsBounded :
    (config : DBusConfig) (sender : String) {c : Capture}
    → Reach (init config sender) c
    → IsBounded c
Reach-IsBounded config sender r = Reach-invariant (init-IsBounded config sender) r
