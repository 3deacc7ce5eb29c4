-- ===== src/Timescale/Checked.antt =====
-- The checks that constructing a `TimescaleDBStorage` of src/dbus_event_log/storage.py makes.
use dbus_event_log.Prelude.{
  ◌≡◌, refl, subst, String, Bool, true, false, not, ◌||◌, Option, none, some, All, any, str_eq,
  or_empty, is_some, if◌then◌else◌, arith,
}
use dbus_event_log.Text.{split, is_empty}
use dbus_event_log.Config.{StorageConfig, TlsMode, verify_full, trusted_local}
use dbus_event_log.Timescale.{
  Url, UrlLib, Result, ok, err, values_of, has_key, hosts_of, decoding_of, implicit_host,
  password_conflict, no_dsn, all_explicit, require_explicit_tcp_host, password_source_of,
  validate_password_source, ssl_of, expected_mode, check_host, sslmode_matches, Timescale,
  new_timescale, ◌>>◌,
}
use dbus_event_log.Timescale.Hosts.{IsHost, all_explicit-IsHost}

-- What a constructed storage has checked.
pub record IsChecked (lib : UrlLib) (config : StorageConfig) (t : Timescale) : Type 0 where
  pub dsn : t.dsn ≡ or_empty config.timescaledb_dsn
  pub given : is_empty t.dsn ≡ false
  pub ssl : t.ssl ≡ ssl_of config.timescaledb_tls
  pub no_pool : t.has_pool ≡ false
  pub url : Url
  pub parsed : lib.urlsplit t.dsn ≡ some url
  pub tcp :
      config.timescaledb_tls ≡ verify_full
      → All (IsHost (decoding_of lib url)) (split b',' (hosts_of lib url))
  pub modes :
      any
        (λ m. not (str_eq m (expected_mode config.timescaledb_tls)))
        (values_of "sslmode" (lib.parse_qs_blank url.query))
      ≡ false
  pub one_password :
      is_some config.timescaledb_password_file ≡ true
      → (is_some url.password ≡ false)
        × (has_key "password" (lib.parse_qs_blank url.query) ≡ false)
        × (has_key "passfile" (lib.parse_qs_blank url.query) ≡ false)

then_ok {ℓ} :
    {A : Type ℓ} (m : Result (Unit {0})) {next : Result A} {a : A}
    → (m >> next) ≡ ok a
    → (m ≡ ok tt) × (next ≡ ok a)
then_ok (ok done) h = (refl, h)
then_ok (err e) h = absurd (ground (arith, h))

require_hosts :
    (lib : UrlLib) (dsn : String) (url : Url)
    → lib.urlsplit dsn ≡ some url
    → require_explicit_tcp_host lib dsn ≡ ok tt
    → All (IsHost (decoding_of lib url)) (split b',' (hosts_of lib url))
unfolding require_explicit_tcp_host
require_hosts lib dsn url e h =
    all_explicit-IsHost (decoding_of lib url) (split b',' (hosts_of lib url)) (
      passed (all_explicit (decoding_of lib url) (split b',' (hosts_of lib url))) (
        subst
          (λ (o : Option Url).
            elim o [
              | none ↦ err implicit_host
              | some u ↦
                  if all_explicit (decoding_of lib u) (split b',' (hosts_of lib u))
                  then ok tt
                  else err implicit_host
            ]
            ≡ ok tt)
          e h))
  where
    passed : (b : Bool) → (if b then ok (tt {0}) else err implicit_host) ≡ ok tt → b ≡ true
    passed true t = refl
    passed false t = absurd (ground (arith, t))

checked_tcp :
    (lib : UrlLib) (mode : TlsMode) (dsn : String) (url : Url)
    → lib.urlsplit dsn ≡ some url
    → check_host lib mode dsn ≡ ok tt
    → mode ≡ verify_full
    → All (IsHost (decoding_of lib url)) (split b',' (hosts_of lib url))
checked_tcp lib verify_full dsn url e h m = require_hosts lib dsn url e h
checked_tcp lib trusted_local dsn url e h m = absurd (ground (arith, m))

checked_modes :
    (lib : UrlLib) (mode : TlsMode) (o : Option Url)
    → sslmode_matches lib mode o ≡ ok tt
    → (url : Url) × (o ≡ some url)
      × (any
            (λ m. not (str_eq m (expected_mode mode)))
            (values_of "sslmode" (lib.parse_qs_blank url.query))
          ≡ false)
checked_modes lib mode none h = absurd (ground (arith, h))
checked_modes lib mode (some url) h = (url, refl, ground (arith, h))

checked_password :
    (lib : UrlLib) (url : Url) (o : Option Url)
    → o ≡ some url
    → password_source_of lib o ≡ ok tt
    → (is_some url.password ≡ false)
      × (has_key "password" (lib.parse_qs_blank url.query) ≡ false)
      × (has_key "passfile" (lib.parse_qs_blank url.query) ≡ false)
checked_password lib url o e h =
    let clear = subst (λ (x : Option Url). password_source_of lib x ≡ ok tt) e h in
    let all =
      none_of (is_some url.password) (has_key "password" (lib.parse_qs_blank url.query))
        (has_key "passfile" (lib.parse_qs_blank url.query)) in
    all clear
  where
    none_of :
        (a b c : Bool)
        → (if a || b || c then err password_conflict else ok (tt {0})) ≡ ok tt
        → (a ≡ false) × (b ≡ false) × (c ≡ false)
    none_of false false false t = (refl, refl, refl)
    none_of true b c t = absurd (ground (arith, t))
    none_of false true c t = absurd (ground (arith, t))
    none_of false false true t = absurd (ground (arith, t))

-- A storage that is constructed has a DSN that names TCP hosts alone where the certificate is to be
-- verified, agrees with the configured TLS mode in every `sslmode`, encrypts as that mode says, and
-- holds no password of its own beside a password file; no pool is open yet.
pub new_timescale-IsChecked :
    (lib : UrlLib) (config : StorageConfig) (t : Timescale)
    → new_timescale lib config ≡ ok t
    → IsChecked lib config t
unfolding new_timescale validate_password_source
new_timescale-IsChecked lib config t h = by_dsn (is_empty dsn) refl h
  where
    dsn : String
    dsn = or_empty config.timescaledb_dsn

    made : Timescale
    made = record {
      config = config;
      dsn = dsn;
      ssl = ssl_of config.timescaledb_tls;
      has_pool = false;
    }

    password_checked :
        (b : Bool) (x : Result (Unit {0})) → b ≡ true → (if b then x else ok tt) ≡ ok tt → x ≡ ok tt
    password_checked true x e r = r
    password_checked false x e r = absurd (ground (arith, e))

    by_dsn :
        (b : Bool)
        → is_empty dsn ≡ b
        → (if b
            then err no_dsn
            else check_host lib config.timescaledb_tls dsn
              >> sslmode_matches lib config.timescaledb_tls (lib.urlsplit dsn)
              >> validate_password_source lib config
              >> ok made)
          ≡ ok t
        → IsChecked lib config t
    by_dsn true e r = absurd (ground (arith, r))
    by_dsn false given r =
        let host = check_host lib config.timescaledb_tls dsn in
        let modes = sslmode_matches lib config.timescaledb_tls (lib.urlsplit dsn) in
        let last = then_ok (host >> modes >> validate_password_source lib config) r in
        let before = then_ok (host >> modes) last.0 in
        let first = then_ok host before.0 in
        let found = checked_modes lib config.timescaledb_tls (lib.urlsplit dsn) first.1 in
        let same : made ≡ t = ground (arith, last.1) in
        subst (IsChecked lib config) same (record {
          dsn = refl;
          given = given;
          ssl = refl;
          no_pool = refl;
          url = found.0;
          parsed = found.1;
          tcp = checked_tcp lib config.timescaledb_tls dsn found.0 found.1 first.0;
          modes = found.2;
          one_password = λ file.
              checked_password lib found.0 (lib.urlsplit dsn) found.1
                (password_checked (is_some config.timescaledb_password_file) _ file before.1);
        })
