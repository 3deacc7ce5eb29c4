-- ===== src/Publisher/Lifecycle.antt =====
-- The life of an `MQTTPublisher` of src/dbus_event_log/mqtt_publisher.py: what is published, and
-- when.
use dbus_event_log.Prelude.{
  ℕ, ◌≡◌, refl, String, Bool, true, false, not, ◌&&◌, ◌||◌, ◌==◌, if_elim, Option, List, [], ◌∷◌,
  arith, ◌⊎◌, inl, inr, ap, ◌∙◌, sym,
}
use dbus_event_log.Config.{MqttConfig}
use dbus_event_log.Event.{DBusEvent}
use dbus_event_log.Storage.Time.{Formats}
use dbus_event_log.Event.Payload.{to_mqtt_payload}
use dbus_event_log.Publisher.{
  Publisher, Request, message, new_publisher, connect, connect_with, disconnect, on_connect,
  on_disconnect, publish, topic, is_method_event, Result, ok, err, Password, password_of,
}

-- One event in the life of a publisher. The callbacks of paho's thread may come at any time, also
-- after a failed attempt to stop it.
pub data Step (read : String → Option (List ℕ)) (p : Publisher) : Publisher → Type 0 where
  connecting : (works : Bool) → Step read p (connect read works p).1
  disconnecting : Step read p (disconnect p).0
  accepted : (reason_code : ℕ) → Step read p (on_connect reason_code p)
  lost : Step read p (on_disconnect p)

pub data Reach (read : String → Option (List ℕ)) (config : MqttConfig) : Publisher → Type 0 where
  created : Reach read config (new_publisher config)
  step : {p q : Publisher} → Reach read config p → Step read p q → Reach read config q

-- The configuration stays, and a client is there only if publishing is enabled.
pub record IsSound (config : MqttConfig) (p : Publisher) : Type 0 where
  pub same : p.config ≡ config
  pub wanted : p.has_client ≡ true → config.enabled ≡ true

disconnect-IsSound :
    (config : MqttConfig) (p : Publisher) → IsSound config p → IsSound config (disconnect p).0
unfolding disconnect
disconnect-IsSound config p h =
    if_elim (λ (r : Publisher × List Request). IsSound config r.0) p.has_client
      (λ _. record { same = h.same; wanted = λ e. absurd (ground (arith, e)) }) (λ _. h)

not-false : (b : Bool) → not b ≡ false → b ≡ true
not-false true e = refl
not-false false e = absurd (ground (arith, e))

connect_with-IsSound :
    (works : Bool) (config : MqttConfig) (p : Publisher) (password : Result (Option Password))
    → config.enabled ≡ true
    → IsSound config p
    → IsSound config (connect_with works p password).1
connect_with-IsSound works config p (err e) on h = h
connect_with-IsSound works config p (ok password) on h =
    let started : IsSound config (record p { has_client = true }) = record {
      same = h.same;
      wanted = λ _. on;
    } in
    if_elim (λ (r : Publisher × List Request). IsSound config r.0) works (λ _. started)
      (λ _. disconnect-IsSound config (record p { has_client = true }) started)

connect-IsSound :
    (read : String → Option (List ℕ)) (works : Bool) (config : MqttConfig) (p : Publisher)
    → IsSound config p
    → IsSound config (connect read works p).1
unfolding connect
connect-IsSound read works config p h =
    if_elim (λ (r : Result (Unit {0}) × Publisher × List Request). IsSound config r.1)
      (not p.config.enabled) (λ _. h)
      (λ on.
        if_elim (λ (r : Result (Unit {0}) × Publisher × List Request). IsSound config r.1)
          p.has_client (λ _. h)
          (λ _.
            connect_with-IsSound works config p (password_of read p.config)
              (ap (λ c. c.enabled) (sym h.same) ∙ not-false p.config.enabled on) h))

Step-IsSound :
    {read : String → Option (List ℕ)} {config : MqttConfig} {p q : Publisher}
    → Step read p q
    → IsSound config p
    → IsSound config q
unfolding on_connect on_disconnect
Step-IsSound {read} {config} {p} (connecting works) h = connect-IsSound read works config p h
Step-IsSound {config = config} {p} disconnecting h = disconnect-IsSound config p h
Step-IsSound {config = config} (accepted code) h =
    if_elim (IsSound config) (code == 0) (λ _. record { same = h.same; wanted = h.wanted }) (λ _. h)
Step-IsSound lost h = record { same = h.same; wanted = h.wanted }

pub Reach-IsSound :
    {read : String → Option (List ℕ)} {config : MqttConfig} {p : Publisher}
    → Reach read config p
    → IsSound config p
Reach-IsSound created = record { same = refl; wanted = λ e. absurd (ground (arith, e)) }
Reach-IsSound (step past s) = Step-IsSound s (Reach-IsSound past)

-- What may be sent for an event: one message, its payload under its topic with the configured
-- quality of service, and only if publishing is enabled, the broker has accepted the connection,
-- and, for the events of method calls, if those were asked for.
pub record Permitted (f : Formats) (config : MqttConfig) (p : Publisher) (e : DBusEvent)
    (sent : List Request) : Type 0 where
  pub enabled : config.enabled ≡ true
  pub connected : p.connected ≡ true
  pub opted_in : is_method_event e.event_type ≡ true → config.publish_method_events ≡ true
  pub one : sent ≡ message (topic config e) (to_mqtt_payload f e) config.qos config.retain ∷ []

usable : (a b : Bool) → (not a || not b) ≡ false → (a ≡ true) × (b ≡ true)
usable true true e = (refl, refl)
usable true false e = absurd (ground (arith, e))
usable false b e = absurd (ground (arith, e))

asked_for : (a b : Bool) → (not a && b) ≡ false → b ≡ true → a ≡ true
asked_for true b e e' = refl
asked_for false b e e' = absurd (ground (arith, e, e'))

-- Whatever has happened to a publisher, publishing an event sends nothing, or exactly one message
-- that is permitted: publishing is enabled, the connection accepted, an event of a method call
-- asked for, and topic, payload, quality of service and retention are those of the configuration.
pub publish-Permitted :
    (f : Formats) (read : String → Option (List ℕ)) (config : MqttConfig) (p : Publisher)
    (e : DBusEvent)
    → Reach read config p
    → (publish f p e ≡ []) ⊎ Permitted f config p e (publish f p e)
unfolding publish
publish-Permitted f read config p e past =
    let sound = Reach-IsSound past in
    let Goal : List Request → Type 0 = λ sent. (sent ≡ []) ⊎ Permitted f config p e sent in
    if_elim Goal (not p.has_client || not p.connected) (λ _. inl refl)
      (λ up.
        if_elim Goal (not p.config.publish_method_events && is_method_event e.event_type)
          (λ _. inl refl)
          (λ allowed. inr (record {
            enabled = sound.wanted (usable p.has_client p.connected up).0;
            connected = (usable p.has_client p.connected up).1;
            opted_in = λ method.
                ap (λ c. c.publish_method_events) (sym sound.same)
                ∙ asked_for p.config.publish_method_events (is_method_event e.event_type) allowed
                    method;
            one =
                ap (λ c. message (topic c e) (to_mqtt_payload f e) c.qos c.retain ∷ []) sound.same;
          })))
