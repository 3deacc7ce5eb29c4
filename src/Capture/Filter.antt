-- ===== src/Capture/Filter.antt =====
-- `_filter` of src/dbus_event_log/method_capture.py, which Gio calls on its I/O thread for each
-- message: the handshake, and the bounded queue.
use dbus_event_log.Prelude.{
  ℕ, ◌+◌, ◌*◌, Bool, true, false, not, ◌&&◌, ◌||◌, Option, none, some, List, [], ◌∷◌, ◌++◌, ltb,
  leb, ◌==◌, length, if◌then◌else◌,
}
use dbus_event_log.Capture.{
  Capture, Message, Body, is_text, bus_name, message_size, is_discovery_barrier,
}

abbrev pub same_serial : Option ℕ → ℕ → Bool
same_serial none n = false
same_serial (some m) n = m == n

-- Not incoming: the serial of our own `BecomeMonitor` call is kept, and the message goes on.
outgoing : Capture → Message → Capture
outgoing c m =
    if is_text m.member "BecomeMonitor" then record c { monitor_serial = some m.serial } else c

-- Not ready: wait for the reply to `BecomeMonitor`.
handshake : Capture → Message → Capture
handshake c m =
    if m.kind == 2 && is_text m.sender bus_name && same_serial c.monitor_serial m.reply_serial
    then record c { ready = true; monitor_serial = none }
    else c

abbrev pub max_body : ℕ
max_body = 1024 * 1024

abbrev too_large : Option Body → Bool
too_large none = false
too_large (some b) = ltb max_body b.size

-- The length and size test under `_queue_lock`.
abbrev pub is_full : Capture → ℕ → Bool
is_full c size =
    leb c.config.max_pending_events (length c.queue)
    || ltb c.config.max_pending_bytes (c.queued_bytes + size)

unfoldable pub accepts : Capture → Message → Bool
unfolding message_size
accepts c m = not (too_large m.body) && not (is_full c (message_size m))

unfoldable pub enqueue : Capture → ℕ → Message → Capture
unfolding accepts
enqueue c now m =
    if too_large m.body
    then record c { overflow = true }
    else if is_full c (message_size m)
    then record c { overflow = true }
    else record c {
      queue = c.queue ++ record { timestamp = now; message = m; size = message_size m } ∷ [];
      queued_bytes = c.queued_bytes + message_size m;
    }

observe : Capture → ℕ → Message → Capture
observe c now m =
    let c' = enqueue c now m in
    if is_discovery_barrier c'.lookup_sender m then record c' { discovery_barrier = true } else c'

-- The state after the call, and whether the message is handed on to Gio (`return message`)
-- rather than consumed (`return None`).
unfoldable pub filter : Capture → ℕ → Bool → Message → Capture × Bool
unfolding outgoing handshake observe
filter c now incoming m =
    if not incoming
    then (outgoing c m, true)
    else if not c.ready
    then (handshake c m, not (m.kind == 1))
    else (observe c now m, false)

-- A burst of incoming messages, each with the time at which it is seen.
unfoldable pub receive : Capture → List (ℕ × Message) → Capture
receive c [] = c
receive c ((now, m) ∷ rest) = receive (filter c now true m).0 rest
