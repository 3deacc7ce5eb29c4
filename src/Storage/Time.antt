-- ===== src/Storage/Time.antt =====
-- `_utc_timestamp` and its users in src/dbus_event_log/storage.py. An instant is the number of
-- microseconds since 0001-01-01T00:00:00 UTC: the text that the code makes of it has a fixed width,
-- so the order of the texts is the order of the instants.
use dbus_event_log.Prelude.{
  ℕ, ◌+◌, ◌-◌, ◌≡◌, String, Option, none, some, List, arith, ltb, leb, if◌then◌else◌,
}
use dbus_event_log.Event.{ℤ, pos, negsuc, Value, Extra}

-- What `datetime.fromisoformat` reads: the local time, and the offset of an aware timestamp.
pub record Stamp : Type 0 where
  pub local : ℕ
  pub offset : Option ℤ

-- The text formats of Python's standard library. `fromisoformat` is `none` where it raises.
pub record Formats : Type 0 where
  pub fromisoformat : String → Option Stamp
  pub isoformat : ℕ → String
  pub uuid_text : ℕ → String
  pub json_arguments : List Value → String
  pub json_kwargs : Extra → String

-- What the program relies on: an aware UTC timestamp is read back as it was written, and two
-- UUIDs have two texts.
pub record IsFaithful (f : Formats) : Type 0 where
  pub reads_back :
      (t : ℕ) → f.fromisoformat (f.isoformat t) ≡ some (record { local = t; offset = some (pos 0) })
  pub ids_differ : (a b : ℕ) → f.uuid_text a ≡ f.uuid_text b → a ≡ b

-- The end of year 9999; `astimezone` raises OverflowError outside the range.
abbrev pub max_instant : ℕ
max_instant = 315_537_897_600_000_000

unfoldable pub to_utc : Stamp → Option ℕ
to_utc s = elim s.offset [
  | none ↦ some s.local
  | some (pos n) ↦ if leb n s.local then some (s.local - n) else none
  | some (negsuc n) ↦ if ltb (s.local + n + 1) max_instant then some (s.local + n + 1) else none
]

-- `_utc_timestamp`: `none` for a malformed or unrepresentable timestamp.
unfoldable pub utc_timestamp : Formats → String → Option ℕ
utc_timestamp f value = elim (f.fromisoformat value) [ none ↦ none | some s ↦ to_utc s ]

pub utc_timestamp-isoformat :
    (f : Formats) (t : ℕ) → IsFaithful f → utc_timestamp f (f.isoformat t) ≡ some t
unfolding utc_timestamp to_utc
utc_timestamp-isoformat f t w = ground (arith, w.reads_back t)
