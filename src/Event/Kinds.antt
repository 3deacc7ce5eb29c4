-- ===== src/Event/Kinds.antt =====
-- `EventType` and `SignalType` of src/dbus_event_log/models.py, and `_map_signal_type` of
-- src/dbus_event_log/monitor.py.
use dbus_event_log.Prelude.{String, Option, none, some, ◌≡◌, refl, str_eq, if◌then◌else◌}

pub data EventType : Type 0 where
  signal method_call method_return error property_changed : EventType
  service_added service_removed state_transition : EventType

-- `event_type.value`
unfoldable pub event_type_value : EventType → String
event_type_value signal = "signal"
event_type_value method_call = "method_call"
event_type_value method_return = "method_return"
event_type_value error = "error"
event_type_value property_changed = "property_changed"
event_type_value service_added = "service_added"
event_type_value service_removed = "service_removed"
event_type_value state_transition = "state_transition"

-- `EventType(value)`; `none` is the ValueError.
unfoldable pub event_type_of : String → Option EventType
event_type_of s =
    if str_eq s "signal"
    then some signal
    else if str_eq s "method_call"
    then some method_call
    else if str_eq s "method_return"
    then some method_return
    else if str_eq s "error"
    then some error
    else if str_eq s "property_changed"
    then some property_changed
    else if str_eq s "service_added"
    then some service_added
    else if str_eq s "service_removed"
    then some service_removed
    else if str_eq s "state_transition"
    then some state_transition
    else none

pub data SignalType : Type 0 where
  signal properties_changed items_changed : SignalType
  interfaces_added interfaces_removed name_owner_changed : SignalType

unfoldable pub signal_type_value : SignalType → String
signal_type_value SignalType.signal = "signal"
signal_type_value properties_changed = "PropertiesChanged"
signal_type_value items_changed = "ItemsChanged"
signal_type_value interfaces_added = "InterfacesAdded"
signal_type_value interfaces_removed = "InterfacesRemoved"
signal_type_value name_owner_changed = "NameOwnerChanged"

-- `SignalType(value)`; `none` is the ValueError.
unfoldable pub signal_type_of : String → Option SignalType
signal_type_of s =
    if str_eq s "signal"
    then some SignalType.signal
    else if str_eq s "PropertiesChanged"
    then some properties_changed
    else if str_eq s "ItemsChanged"
    then some items_changed
    else if str_eq s "InterfacesAdded"
    then some interfaces_added
    else if str_eq s "InterfacesRemoved"
    then some interfaces_removed
    else if str_eq s "NameOwnerChanged"
    then some name_owner_changed
    else none

-- `DBusMonitor._map_signal_type`: an unknown name is a plain signal.
unfoldable pub map_signal_type : String → SignalType
unfolding signal_type_of
map_signal_type name = elim (signal_type_of name) [ some t ↦ t | none ↦ SignalType.signal ]

pub event_type_of-value : (t : EventType) → event_type_of (event_type_value t) ≡ some t
unfolding event_type_of event_type_value
event_type_of-value signal = refl
event_type_of-value method_call = refl
event_type_of-value method_return = refl
event_type_of-value error = refl
event_type_of-value property_changed = refl
event_type_of-value service_added = refl
event_type_of-value service_removed = refl
event_type_of-value state_transition = refl

pub signal_type_of-value : (t : SignalType) → signal_type_of (signal_type_value t) ≡ some t
unfolding signal_type_of signal_type_value
signal_type_of-value SignalType.signal = refl
signal_type_of-value properties_changed = refl
signal_type_of-value items_changed = refl
signal_type_of-value interfaces_added = refl
signal_type_of-value interfaces_removed = refl
signal_type_of-value name_owner_changed = refl
