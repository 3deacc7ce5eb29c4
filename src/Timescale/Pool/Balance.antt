-- ===== src/Timescale/Pool/Balance.antt =====
-- The connection pools that `TimescaleDBStorage` of src/dbus_event_log/storage.py opens and closes.
use dbus_event_log.Prelude.{
  ℕ, suc, ◌+◌, ◌≡◌, ap, Bool, true, false, not, Option, List, [], ◌∷◌, ◌++◌, if◌then◌else◌, if_elim,
  arith,
}
use dbus_event_log.Event.{DBusEvent}
use dbus_event_log.Storage.Time.{Formats}
use dbus_event_log.Timescale.{UrlLib, Result, ok, err, Timescale, validate_password_source}
use dbus_event_log.Timescale.Pool.{
  PoolEnv, PoolCall, create, close_pool, Session, ServerRow, with_calls, open_pool, open_checked,
  get_pool, Connection, insert_events, transaction, acquire, release, with_connection, insert,
  insert_batch, close, password_of_file,
}

abbrev pub created : List PoolCall → ℕ
created [] = 0
created (create ssl password ∷ rest) = suc (created rest)
created (close_pool ∷ rest) = created rest

abbrev pub closed : List PoolCall → ℕ
closed [] = 0
closed (create ssl password ∷ rest) = closed rest
closed (close_pool ∷ rest) = suc (closed rest)

abbrev pub open_count : Bool → ℕ
open_count has_pool = if has_pool then 1 else 0

-- Every pool that was created is closed, but the one that the storage has.
abbrev pub IsBalanced : Session → Type 0
IsBalanced s = created s.calls ≡ closed s.calls + open_count s.storage.has_pool

abbrev Kept : Result (Unit {0}) × Session → Type 0
Kept r = IsBalanced r.1

created-append : (a b : List PoolCall) → created (a ++ b) ≡ created a + created b
created-append [] b = omega arith
created-append (create ssl password ∷ a) b = omega (arith, created-append a b)
created-append (close_pool ∷ a) b = created-append a b

closed-append : (a b : List PoolCall) → closed (a ++ b) ≡ closed a + closed b
closed-append [] b = omega arith
closed-append (create ssl password ∷ a) b = closed-append a b
closed-append (close_pool ∷ a) b = omega (arith, closed-append a b)

-- Calls that open and close as many pools as the state says.
with_calls-IsBalanced :
    (s : Session) (has_pool : Bool) (calls : List PoolCall)
    → IsBalanced s
    → created calls + open_count s.storage.has_pool ≡ closed calls + open_count has_pool
    → IsBalanced (with_calls s has_pool calls)
with_calls-IsBalanced s has_pool calls h e =
    omega (arith, h, created-append s.calls calls, closed-append s.calls calls)

open_pool-IsBalanced :
    (env : PoolEnv) (s : Session) (password : Result (Option (List ℕ)))
    → s.storage.has_pool ≡ false
    → IsBalanced s
    → Kept (open_pool env s password)
open_pool-IsBalanced env s (err e) no_pool h = h
open_pool-IsBalanced env s (ok password) no_pool h =
    let none_open : open_count s.storage.has_pool ≡ 0 = ap open_count no_pool in
    if_elim Kept (not env.creates) (λ _. h)
      (λ _.
        if_elim Kept (not env.schema_works)
          (λ _.
            with_calls-IsBalanced s false (create s.storage.ssl password ∷ close_pool ∷ []) h
              (omega (arith, none_open)))
          (λ _.
            with_calls-IsBalanced s true (create s.storage.ssl password ∷ []) h
              (omega (arith, none_open))))

open_checked-IsBalanced :
    (env : PoolEnv) (s : Session) (checked : Result (Unit {0}))
    → s.storage.has_pool ≡ false
    → IsBalanced s
    → Kept (open_checked env s checked)
open_checked-IsBalanced env s (err e) no_pool h = h
open_checked-IsBalanced env s (ok done) no_pool h =
    open_pool-IsBalanced env s
      (password_of_file s.storage.config.timescaledb_password_file env.read) no_pool h

get_pool-IsBalanced :
    (lib : UrlLib) (env : PoolEnv) (s : Session) → IsBalanced s → Kept (get_pool lib env s)
unfolding get_pool
get_pool-IsBalanced lib env s h =
    if_elim Kept s.storage.has_pool (λ _. h)
      (λ no_pool.
        open_checked-IsBalanced env s (validate_password_source lib s.storage.config) no_pool h)

with_connection-IsBalanced :
    (body : Connection → Bool × Connection) (r : Result (Unit {0}) × Session)
    → Kept r
    → Kept (with_connection body r)
with_connection-IsBalanced body (err e, s) h = h
with_connection-IsBalanced body (ok done, s) h = released (body (acquire s))
  where
    released : (r : Bool × Connection) → Kept (release s r)
    released (true, c) = h
    released (false, c) = h

-- What is called on a storage after its construction; a query also takes the pool.
pub data Reach (f : Formats) (lib : UrlLib) (t : Timescale) : Session → Type 0 where
  constructed :
      (table : List ServerRow) → Reach f lib t (record { storage = t; table = table; calls = [] })
  inserted :
      {s : Session} (env : PoolEnv) (e : DBusEvent)
      → Reach f lib t s
      → Reach f lib t (insert f lib env e s).1
  batch_inserted :
      {s : Session} (env : PoolEnv) (events : List DBusEvent)
      → Reach f lib t s
      → Reach f lib t (insert_batch f lib env events s).1
  queried : {s : Session} (env : PoolEnv) → Reach f lib t s → Reach f lib t (get_pool lib env s).1
  closed_down : {s : Session} → Reach f lib t s → Reach f lib t (close s)

-- Whatever is called on a storage that starts without a pool, and whatever fails on the way: every
-- pool that was ever opened is closed again, but for the one that the storage has. So at most one
-- is open, and none after a failed schema or a `close`. The hypothesis: the storage was constructed
-- without a pool.
pub Reach-IsBalanced :
    (f : Formats) (lib : UrlLib) (t : Timescale) (s : Session)
    → t.has_pool ≡ false
    → Reach f lib t s
    → IsBalanced s
unfolding insert insert_batch close
Reach-IsBalanced f lib t s fresh (constructed table) = omega (arith, ap open_count fresh)
Reach-IsBalanced f lib t s fresh (inserted {s = s'} env e past) =
    with_connection-IsBalanced (insert_events f env.failing (e ∷ [])) (get_pool lib env s')
      (get_pool-IsBalanced lib env s' (Reach-IsBalanced f lib t s' fresh past))
Reach-IsBalanced f lib t s fresh (batch_inserted env [] past) =
    Reach-IsBalanced f lib t _ fresh past
Reach-IsBalanced f lib t s fresh (batch_inserted {s = s'} env (e ∷ rest) past) =
    with_connection-IsBalanced (transaction env (insert_events f env.failing (e ∷ rest)))
      (get_pool lib env s')
      (get_pool-IsBalanced lib env s' (Reach-IsBalanced f lib t s' fresh past))
Reach-IsBalanced f lib t s fresh (queried {s = s'} env past) =
    get_pool-IsBalanced lib env s' (Reach-IsBalanced f lib t s' fresh past)
Reach-IsBalanced f lib t s fresh (closed_down {s = s'} past) =
    let h = Reach-IsBalanced f lib t s' fresh past in
    if_elim IsBalanced s'.storage.has_pool
      (λ has. with_calls-IsBalanced s' false (close_pool ∷ []) h (omega (arith, ap open_count has)))
      (λ _. h)
