-- ===== src/Publisher/Queue.antt =====
-- `AsyncMQTTPublisher` of src/dbus_event_log/mqtt_publisher.py: an unbounded queue before the
-- publisher, which one task empties.
use dbus_event_log.Prelude.{
  ℕ, zero, suc, Bool, true, false, Option, List, [], ◌∷◌, ◌++◌, String, if◌then◌else◌,
}
use dbus_event_log.Event.{DBusEvent}
use dbus_event_log.Storage.Time.{Formats}
use dbus_event_log.Publisher.{Publisher, Request, Result, ok, err, connect, disconnect, publish}

-- `running` is that the task of `_process_queue` is there.
pub record AsyncPublisher : Type 0 where
  pub publisher : Publisher
  pub queue : List DBusEvent
  pub running : Bool

abbrev started :
    AsyncPublisher
    → Result (Unit {0}) × Publisher × List Request
    → Result (Unit {0}) × AsyncPublisher × List Request
started q (err e, p, requests) = (err e, record q { publisher = p }, requests)
started q (ok done, p, requests) = (ok tt, record q { publisher = p; running = true }, requests)

-- `start`
unfoldable pub start :
    (String → Option (List ℕ))
    → Bool
    → AsyncPublisher
    → Result (Unit {0}) × AsyncPublisher × List Request
start read works q = started q (connect read works q.publisher)

-- `stop`: what is still queued stays there.
unfoldable pub stop : AsyncPublisher → AsyncPublisher × List Request
stop q =
    let stopped = disconnect q.publisher in
    (record q { publisher = stopped.0; running = false }, stopped.1)

-- `publish` of the queue.
unfoldable pub put : DBusEvent → AsyncPublisher → AsyncPublisher
put e q = record q { queue = q.queue ++ e ∷ [] }

-- One pass of the loop of `_process_queue`; on an empty queue it times out.
unfoldable pub process_one : Formats → AsyncPublisher → List Request × AsyncPublisher
process_one f q = elim q.queue [
  | [] ↦ ([], q)
  | e ∷ rest ↦ if q.running then (publish f q.publisher e, record q { queue = rest }) else ([], q)
]

unfoldable pub process : Formats → ℕ → AsyncPublisher → List Request × AsyncPublisher
process f zero q = ([], q)
process f (suc passes) q =
    let one = process_one f q in let rest = process f passes one.1 in (one.0 ++ rest.0, rest.1)
