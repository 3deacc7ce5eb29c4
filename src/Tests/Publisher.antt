-- ===== src/Tests/Publisher.antt =====
-- The MQTT publisher of src/dbus_event_log/mqtt_publisher.py at concrete inputs.
use dbus_event_log.Prelude.{ℕ, ◌≡◌, refl, ◌⊎◌, String, true, false, Option, none, List, [], ◌∷◌}
use dbus_event_log.Config.{default_mqtt}
use dbus_event_log.Event.Payload.{to_mqtt_payload}
use dbus_event_log.Publisher.{
  Publisher, message, new_publisher, connect, on_connect, publish, topic, service_path, password_of,
}
use dbus_event_log.Publisher.Lifecycle.{
  created, step, connecting, accepted, Permitted, publish-Permitted,
}
use dbus_event_log.Tests.Rows.{formats}
use dbus_event_log.Tests.Samples.{soc_changed}

abbrev no_file : String → Option (List ℕ)
no_file path = none

abbrev online : Publisher
online = record { config = default_mqtt; has_client = true; connected = true }

abbrev up : Publisher
up = on_connect 0 (connect no_file true (new_publisher default_mqtt)).1

online_sends :
    publish formats online soc_changed
    ≡ message "victron/dbus/events/com/victronenergy/battery/PropertiesChanged"
        (to_mqtt_payload formats soc_changed)
        1
        false
      ∷ []
unfolding publish topic service_path
online_sends = refl

up-online : up ≡ online
unfolding connect on_connect password_of
up-online = refl

publish-Permitted_example :
    (publish formats up soc_changed ≡ [])
    ⊎ Permitted formats default_mqtt up soc_changed (publish formats up soc_changed)
publish-Permitted_example =
    publish-Permitted formats no_file default_mqtt up soc_changed
      (step (step created (connecting true)) (accepted 0))
