-- ===== src/Tests/Capture.antt =====
-- Runs of the capture of src/dbus_event_log/method_capture.py, and its theorems at concrete inputs.
pub mod Samples
use dbus_event_log.Prelude.{
  ℕ, ◌+◌, ◌≤◌, ◌<◌, ◌≡◌, ◌≢◌, refl, ◌⊎◌, inl, inr, Bool, true, false, String, Option, none, some,
  List, [], ◌∷◌, ◌++◌, map, length, All, arith, string_eq, pair_eq, eq_iff, if◌then◌else◌, ◌↔◌,
  ◌==◌, ap,
}
use dbus_event_log.Dict
use dbus_event_log.Event.{DBusEvent, Value, Extra, Identity}
use dbus_event_log.Event.Kinds.{EventType}
use dbus_event_log.Event.Payload.{to_mqtt_payload, from_mqtt_payload, from-to_mqtt_payload}
use dbus_event_log.Names.{name_selected, Selected, name_selected_iff}
use dbus_event_log.Capture.{
  Capture, Message, Queued, Tracked, Result, ok, err, CaptureError, matches, message_size, init,
  bus_name,
}
use dbus_event_log.Capture.Filter.{filter, receive}
use dbus_event_log.Capture.Decode.{
  Env, decode, expired, expire, method_call, is_wanted, service_of, caller,
  call_event as make_event, tracked_copy, track, destination_names, reply, answer, is_genuine,
  extra_caller, reply_event, reply_expected,
}
use dbus_event_log.Capture.Poll.{poll, poll_loop, poll_rounds, continue, dequeue, batch_limit}
use dbus_event_log.Capture.NoLoss.{entry, receive_lossless, receive_fits}
use dbus_event_log.Capture.Steps.{Reach, here, next, filtered, Reach-IsBounded}
use dbus_event_log.Capture.Bounds.{IsBounded, queued_size}
use mathlib.Core.Bool.{false≢true}
use dbus_event_log.Capture.Meanwhile.{IsUnrelated, at_once, decoded, filtered as seen}
use dbus_event_log.Capture.Replies.{IsResult, reply_recorded, call_then_reply}
use dbus_event_log.Capture.Order.{batch, decode_each, poll-decodes_batch, poll-queue, poll_bounds}
use Samples.{
  config, env, later, call_message, reply_message, ready, awaiting, call_event, unknown_caller,
}

abbrev calls : List (ℕ × Message)
calls = (1, call_message) ∷ (2, reply_message) ∷ []

receive_lossless_example :
    ((receive ready calls).queue ≡ [] ++ map entry calls)
    ⊎ (poll (λ _. env) (receive ready calls)
        ≡ (err CaptureError.capture_overflow, receive ready calls))
receive_lossless_example = receive_lossless ready calls (λ _. env) refl

decode_call : decode env 1 call_message ready ≡ (ok (some call_event), awaiting)
unfolding decode expire method_call is_wanted service_of caller make_event tracked_copy track
    matches destination_names Dict.get Dict.put Dict.move_to_end
decode_call = refl

-- The result that the reply leads to.
abbrev result : DBusEvent
result = reply_event later 2 reply_message [] ":1.9" ":1.5" call_event unknown_caller

abbrev answered : Capture
answered = record awaiting { calls = [] }

decode_reply : decode later 2 reply_message awaiting ≡ (ok (some result), answered)
unfolding decode expire reply answer is_genuine extra_caller reply_event Dict.get Dict.remove
decode_reply = refl

reply_recorded_example :
    (awaited : Tracked) × (Dict.get (":1.5", 3) (expired later awaiting).calls ≡ some awaited)
    × IsResult awaited reply_message result answered
reply_recorded_example =
    reply_recorded later 2 reply_message awaiting answered result (λ e. cc (ap (λ n. n == 1) e))
      decode_reply

-- A second call of the same client, before the reply to the first.
abbrev second_call : Message
second_call = record call_message { serial = 4 }

abbrev both_awaiting : Capture
both_awaiting = (decode later 2 second_call (filter awaiting 2 true second_call).0).1

second-IsUnrelated : IsUnrelated (":1.5", 3) second_call
second-IsUnrelated = record {
  no_call = λ e. cc (ap (λ (k : String × ℕ). k.1 == 3) e);
  no_answer = λ e. cc (ap (λ (k : String × ℕ). k.1 == 3) e);
}

call_then_reply_example :
    (outcome : DBusEvent) × (identity : Identity) × ((decode later 2 reply_message both_awaiting).0
      ≡ ok (some outcome))
    × (outcome.service_name ≡ call_event.service_name)
    × (outcome.kwargs ≡ Extra.reply 7 (some 3) identity)
    × (outcome.event_type ≡ EventType.method_return)
call_then_reply_example =
    call_then_reply env later 1 2 200 call_message reply_message ready awaiting both_awaiting
      call_event refl refl decode_call
      (decoded later 2 second_call (omega arith) second-IsUnrelated
        (seen 2 true second_call at_once))
      (omega arith) (inl refl) refl refl refl named (omega arith)
  where
    named : ◌≢◌ {A = String} ":1.9" ""
    named e = false≢true ((eq_iff ":1.9" "").1 e)

receive_fits_example : (receive ready calls).overflow ≡ false
unfolding message_size
receive_fits_example = receive_fits ready calls refl (tt, (tt, tt)) fits_events fits_bytes
  where
    fits_events : 0 + 2 ≤ 2
    fits_events = omega arith

    fits_bytes : queued_size (map entry calls) ≤ 1024
    fits_bytes = unfold message_size in omega arith

Reach-IsBounded_example : IsBounded (filter (init config ":1.1") 5 false call_message).0
Reach-IsBounded_example = Reach-IsBounded config ":1.1" (next here (filtered 5 false call_message))

abbrev one_queued : Capture
one_queued = record ready {
  queue = entry (1, call_message) ∷ [];
  queued_bytes = message_size call_message;
}

polled_one : (poll (λ _. env) one_queued).0 ≡ ok (call_event ∷ [])
unfolding poll poll_loop continue dequeue decode expire method_call is_wanted service_of caller
    make_event tracked_copy track matches destination_names Dict.get Dict.put Dict.move_to_end
polled_one = refl

poll-queue_example :
    (batch (batch_limit one_queued) poll_rounds 0 one_queued.queue
        ++ (poll (λ _. env) one_queued).1.queue
      ≡ one_queued.queue)
    × (one_queued.queue ≢ []
        → length (poll (λ _. env) one_queued).1.queue < length one_queued.queue)
poll-queue_example = poll-queue (λ _. env) one_queued (call_event ∷ []) polled_one

poll_bounds_example :
    (length one_queued.queue ≤ length (poll (λ _. env) one_queued).1.queue + poll_rounds)
    × ((queued_size one_queued.queue
          ≤ queued_size (poll (λ _. env) one_queued).1.queue + batch_limit one_queued)
        ⊎ (length one_queued.queue ≤ length (poll (λ _. env) one_queued).1.queue + 1))
poll_bounds_example =
    poll_bounds (λ _. env) one_queued (call_event ∷ []) (unfold message_size in omega arith)
      polled_one

name_selected_iff_example :
    (name_selected ("com.victronenergy.*" ∷ []) "com.victronenergy.solar" ≡ true)
    ↔ Selected "com.victronenergy.solar" ("com.victronenergy.*" ∷ [])
name_selected_iff_example = name_selected_iff ("com.victronenergy.*" ∷ []) "com.victronenergy.solar"
