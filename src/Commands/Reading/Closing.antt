-- ===== src/Commands/Reading/Closing.antt =====
-- `_query_timescale` of src/dbus_event_log/cli.py leaves no pool behind.
use dbus_event_log.Prelude.{◌≡◌, refl, ap, sym, subst, false, Option, List, if_elim, arith}
use dbus_event_log.Storage.Time.{Formats}
use dbus_event_log.Storage.Query.{Filters}
use dbus_event_log.Timescale.{UrlLib, Timescale, Result, ok, err}
use dbus_event_log.Timescale.Pool.{PoolEnv, Session, ServerRow, get_pool, close}
use dbus_event_log.Timescale.Pool.Balance.{
  created, closed, open_count, Reach, queried, closed_down, Reach-IsBalanced,
}
use dbus_event_log.Timescale.Statement.{Statement, statement}
use dbus_event_log.Timescale.Fetch.{fetch-session, query_with, query}
use dbus_event_log.Commands.Reading.{query_timescale}

close-has_pool : (s : Session) → (close s).storage.has_pool ≡ false
unfolding close
close-has_pool s =
    if_elim (λ (r : Session). r.storage.has_pool ≡ false) s.storage.has_pool (λ _. refl)
      (λ no_pool. no_pool)

query_with-Reach :
    (f : Formats) (lib : UrlLib) (env : PoolEnv) (answer : Statement → Option (List ServerRow))
    (t : Timescale) (s : Session) (st : Result Statement)
    → Reach f lib t s
    → Reach f lib t (query_with lib env answer s st).1
query_with-Reach f lib env answer t s (err e) past = past
query_with-Reach f lib env answer t s (ok st) past =
    subst (Reach f lib t) (sym (fetch-session answer st (get_pool lib env s))) (queried env past)

-- A query on a TimescaleDB storage leaves no pool open, whether it returns or raises: afterwards the
-- storage has no pool, and as many pools were closed as were ever created. The hypotheses: the
-- storage was constructed without a pool, and anything was called on it before.
query_timescale-closed :
    (f : Formats) (lib : UrlLib) (env : PoolEnv) (answer : Statement → Option (List ServerRow))
    (q : Filters) (t : Timescale) (s : Session)
    → t.has_pool ≡ false
    → Reach f lib t s
    → ((query_timescale f lib env answer q s).1.storage.has_pool ≡ false)
      × (created (query_timescale f lib env answer q s).1.calls
          ≡ closed (query_timescale f lib env answer q s).1.calls)
unfolding query_timescale query
query_timescale-closed f lib env answer q t s fresh past =
    let before = (query_with lib env answer s (statement f q)).1 in
    let after = close before in
    let none_left = close-has_pool before in
    let balanced =
      Reach-IsBalanced f lib t after fresh
        (closed_down (query_with-Reach f lib env answer t s (statement f q) past)) in
    (none_left, omega (arith, balanced, ap open_count none_left))
