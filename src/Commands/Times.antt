-- ===== src/Commands/Times.antt =====
-- `_parse_time` of src/dbus_event_log/cli.py: times before now, or any text that dateutil reads.
use Prim.Native.Char.{code}
use dbus_event_log.Prelude.{
  ℕ, ◌+◌, ◌-◌, ◌*◌, String, Option, none, some, ◌==◌, ltb, leb, str_eq, if◌then◌else◌,
}
use dbus_event_log.Names.{drop_last}
use dbus_event_log.Event.{ℤ, pos, negsuc}
use dbus_event_log.Storage.Time.{Formats, max_instant}
use dbus_event_log.Commands.{Result, ok, err, bad_time, time_out_of_range}

-- `int` and `parser.parse(...).isoformat()`; `none` is a ValueError.
pub record TimeLib : Type 0 where
  pub int : String → Option ℤ
  pub parse : String → Option String

-- `time_str[-1]`
unfoldable pub last_char : String → ℕ → ℕ
last_char String.[] c = c
last_char (String.◌∷◌ d s) c = last_char s (code d)

-- `units`, in microseconds
abbrev pub unit_of : ℕ → Option ℕ
unit_of c =
    if c == b'h'
    then some 3_600_000_000
    else if c == b'm'
    then some 60_000_000
    else if c == b's'
    then some 1_000_000
    else if c == b'd'
    then some 86_400_000_000
    else none

-- `datetime.now(UTC) - delta`
unfoldable pub before_now : ℕ → ℕ → ℤ → Option ℕ
before_now now unit (pos n) = if leb (n * unit) now then some (now - n * unit) else none
before_now now unit (negsuc n) =
    if ltb (now + (n + 1) * unit) max_instant then some (now + (n + 1) * unit) else none

abbrev printed : Formats → Option ℕ → Result String
printed f none = err time_out_of_range
printed f (some t) = ok (f.isoformat t)

abbrev relative : Formats → ℕ → ℕ → Option ℤ → Result String
relative f now unit none = err bad_time
relative f now unit (some n) = printed f (before_now now unit n)

abbrev absolute : Option String → Result String
absolute none = err bad_time
absolute (some text) = ok text

abbrev by_unit : Formats → TimeLib → ℕ → String → Option ℕ → Result String
by_unit f lib now time_str none = absolute (lib.parse time_str)
by_unit f lib now time_str (some unit) = relative f now unit (lib.int (drop_last time_str))

-- `_parse_time` at the instant `now`
unfoldable pub parse_time : Formats → TimeLib → ℕ → String → Result String
parse_time f lib now time_str = by_unit f lib now time_str (unit_of (last_char time_str 0))

-- `_parse_time(since) if since else None`
abbrev given : Result String → Result (Option String)
given (ok text) = ok (some text)
given (err e) = err e

abbrev pub parse_option : Formats → TimeLib → ℕ → Option String → Result (Option String)
parse_option f lib now none = ok none
parse_option f lib now (some text) =
    if str_eq text "" then ok none else given (parse_time f lib now text)
