-- ===== src/Capture/Frames.antt =====
-- The parts of the state on which the consumer of src/dbus_event_log/method_capture.py works:
-- `_decode` on owners, credentials and calls, `_filter` and `poll` on the queue.
use dbus_event_log.Prelude.{ℕ, ◌≡◌, String, List, arith}
use dbus_event_log.Event.{Value}
use dbus_event_log.Capture.{Capture, Message, or_empty, body_arguments}
use dbus_event_log.Capture.Owners.{update_owner}
use dbus_event_log.Capture.Decode.{
  Env, decode, owner_signal, method_call, reply, expired, track, answer,
}

-- The fields that `_decode` never writes.
pub record SameQueue (a b : Capture) : Type 0 where
  pub config : a.config ≡ b.config
  pub queue : a.queue ≡ b.queue
  pub queued_bytes : a.queued_bytes ≡ b.queued_bytes
  pub overflow : a.overflow ≡ b.overflow
  pub ready : a.ready ≡ b.ready
  pub connection : a.connection ≡ b.connection

update_owner-SameQueue : (c : Capture) (name new : String) → SameQueue (update_owner c name new) c
unfolding update_owner
update_owner-SameQueue c name new = ground arith

method_call-SameQueue :
    (env : Env) (t : ℕ) (m : Message) (arguments : List Value) (s d : String) (c : Capture)
    → SameQueue (method_call env t m arguments s d c).1 c
unfolding method_call track
method_call-SameQueue env t m arguments s d c = ground arith

reply-SameQueue :
    (env : Env) (t : ℕ) (m : Message) (arguments : List Value) (s d : String) (c : Capture)
    → SameQueue (reply env t m arguments s d c).1 c
unfolding reply answer
reply-SameQueue env t m arguments s d c = ground arith

owner_signal-SameQueue :
    (m : Message) (arguments : List Value) (s : String) (c : Capture)
    → SameQueue (owner_signal m arguments s c).1 c
unfolding owner_signal update_owner
owner_signal-SameQueue m arguments s c = ground arith

pub decode-SameQueue :
    (env : Env) (t : ℕ) (m : Message) (c : Capture) → SameQueue (decode env t m c).1 c
unfolding decode
decode-SameQueue env t m c =
    let s = or_empty m.sender in
    let d = or_empty m.destination in
    let l = body_arguments m in
    ground (
      arith,
      owner_signal-SameQueue m l s c,
      method_call-SameQueue env t m l s d (expired env c),
      reply-SameQueue env t m l s d (expired env c),
    )
