-- ===== src/Timescale.antt =====
-- `TimescaleDBStorage` of src/dbus_event_log/storage.py: the checks of its connection string.
-- `Pool` is the life of the connection pool with the writes, `Statement` the text of a query.
-- Python's `urllib.parse` is an argument.
pub mod Hosts
pub mod Checked
pub mod Pool
pub mod Statement
pub mod Fetch
use dbus_event_log.Prelude.{
  ℕ, ◌≡◌, String, Bool, true, false, not, ◌&&◌, ◌||◌, Option, none, some, List, [], ◌∷◌, any,
  str_eq, or_empty, is_some, if◌then◌else◌,
}
use dbus_event_log.Text.{has_char, before_char, after_char, split, starts_with_char, tail, is_empty}
use dbus_event_log.Config.{StorageConfig, TlsMode, verify_full, trusted_local}

-- What `urlsplit` finds.
pub record Url : Type 0 where
  pub netloc : String
  pub query : String
  pub password : Option String

-- `urlsplit` raises a ValueError as `none`; `parse_qs` leaves blank values out,
-- `parse_qs_blank` keeps them.
pub record UrlLib : Type 0 where
  pub urlsplit : String → Option Url
  pub parse_qs : String → List (String × List String)
  pub parse_qs_blank : String → List (String × List String)
  pub unquote : String → String

pub data TimescaleError : Type 0 where
  no_dsn implicit_host invalid_url sslmode_conflict password_conflict : TimescaleError
  unreadable_password connection_failed schema_failed statement_failed invalid_timestamp :
      TimescaleError

pub data Result {ℓ} (A : Type ℓ) : Type ℓ where
  ok : A → Result A
  err : TimescaleError → Result A

-- The dictionaries of `parse_qs`.
abbrev pub values_of : String → List (String × List String) → List String
values_of key [] = []
values_of key ((k, values) ∷ rest) = if str_eq k key then values else values_of key rest

abbrev pub has_key : String → List (String × List String) → Bool
has_key key [] = false
has_key key ((k, values) ∷ rest) = str_eq k key || has_key key rest

-- `values[-1]`, for `.get(key, [""])[-1]`
abbrev pub last_or_empty : List String → String
last_or_empty [] = ""
last_or_empty (v ∷ []) = v
last_or_empty (v ∷ w ∷ rest) = last_or_empty (w ∷ rest)

-- `parsed.netloc.partition("@")[2] if "@" in parsed.netloc else parsed.netloc`
abbrev pub authority_of : Url → String
authority_of url = if has_char b'@' url.netloc then after_char b'@' url.netloc else url.netloc

-- The address of one host before decoding; `none` is a bracket that is not closed.
unfoldable pub address_of : String → Option String
address_of host =
    if starts_with_char b'[' host
    then (if has_char b']' (tail host) then some (before_char b']' (tail host)) else none)
    else if starts_with_char b'/' host
    then some host
    else some (before_char b':' host)

-- The test of one pass of the loop, with the decoding that applies.
unfoldable pub is_explicit : (String → String) → String → Bool
is_explicit decode host = elim (address_of host) [
  | none ↦ false
  | some address ↦ not (is_empty (decode address)) && not (starts_with_char b'/' (decode address))
]

unfoldable pub all_explicit : (String → String) → List String → Bool
all_explicit decode [] = true
all_explicit decode (h ∷ rest) =
    let others = all_explicit decode rest in is_explicit decode h && others

-- `hosts`, and how its addresses are decoded: only an authority is quoted.
abbrev pub hosts_of : UrlLib → Url → String
hosts_of lib url =
    if is_empty (authority_of url)
    then last_or_empty (values_of "host" (lib.parse_qs url.query))
    else authority_of url

abbrev pub decoding_of : UrlLib → Url → String → String
decoding_of lib url address = if is_empty (authority_of url) then address else lib.unquote address

-- `_require_explicit_tcp_host`
unfoldable pub require_explicit_tcp_host : UrlLib → String → Result (Unit {0})
require_explicit_tcp_host lib dsn = elim (lib.urlsplit dsn) [
  | none ↦ err implicit_host
  | some url ↦
      if all_explicit (decoding_of lib url) (split b',' (hosts_of lib url))
      then ok tt
      else err implicit_host
]

-- `_validate_password_source`
abbrev pub password_source_of : UrlLib → Option Url → Result (Unit {0})
password_source_of lib none = err invalid_url
password_source_of lib (some url) =
    let query = lib.parse_qs_blank url.query in
    if is_some url.password || has_key "password" query || has_key "passfile" query
    then err password_conflict
    else ok tt

unfoldable pub validate_password_source : UrlLib → StorageConfig → Result (Unit {0})
validate_password_source lib config =
    if is_some config.timescaledb_password_file
    then password_source_of lib (lib.urlsplit (or_empty config.timescaledb_dsn))
    else ok tt

pub data Ssl : Type 0 where
  off verified : Ssl

abbrev pub ssl_of : TlsMode → Ssl
ssl_of verify_full = verified
ssl_of trusted_local = off

-- `expected_mode`
abbrev pub expected_mode : TlsMode → String
expected_mode verify_full = "verify-full"
expected_mode trusted_local = "disable"

abbrev pub check_host : UrlLib → TlsMode → String → Result (Unit {0})
check_host lib verify_full dsn = require_explicit_tcp_host lib dsn
check_host lib trusted_local dsn = ok tt

abbrev sslmode_matches : UrlLib → TlsMode → Option Url → Result (Unit {0})
sslmode_matches lib mode none = err invalid_url
sslmode_matches lib mode (some url) =
    if any (λ m. not (str_eq m (expected_mode mode)))
      (values_of "sslmode" (lib.parse_qs_blank url.query))
    then err sslmode_conflict
    else ok tt

infixl 5 ◌>>◌
abbrev pub ◌>>◌ {ℓ} : {A : Type ℓ} → Result (Unit {0}) → Result A → Result A
ok done >> next = next
err e >> next = err e

-- The fields that `__init__` sets.
pub record Timescale : Type 0 where
  pub config : StorageConfig
  pub dsn : String
  pub ssl : Ssl
  pub has_pool : Bool

-- `__init__`
unfoldable pub new_timescale : UrlLib → StorageConfig → Result Timescale
new_timescale lib config =
    let dsn = or_empty config.timescaledb_dsn in
    if is_empty dsn
    then err no_dsn
    else check_host lib config.timescaledb_tls dsn
      >> sslmode_matches lib config.timescaledb_tls (lib.urlsplit dsn)
      >> validate_password_source lib config
      >> ok (record {
        config = config;
        dsn = dsn;
        ssl = ssl_of config.timescaledb_tls;
        has_pool = false;
      })
