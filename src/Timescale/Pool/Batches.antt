-- ===== src/Timescale/Pool/Batches.antt =====
-- The writes of `TimescaleDBStorage` in src/dbus_event_log/storage.py.
use mathlib.Core.List.{append-nil, append_assoc}
use dbus_event_log.Prelude.{
  ℕ, zero, suc, Bool, false, subst, arith, ◌≡◌, refl, ap, sym, ◌∙◌, ◌⊎◌, inl, inr, true, not,
  Option, none, some, List, [], ◌∷◌, ◌++◌, if_elim, arith,
}
use dbus_event_log.Event.{DBusEvent}
use dbus_event_log.Storage.Time.{Formats}
use dbus_event_log.Timescale.{
  UrlLib, Result, ok, err, TimescaleError, statement_failed, validate_password_source,
}
use dbus_event_log.Timescale.Pool.{
  PoolEnv, Session, Connection, ServerRow, server_row, open_pool, open_checked, get_pool,
  insert_event, insert_events, begin_transaction, end_transaction, transaction, acquire, release,
  with_connection, insert_batch, password_of_file,
}

abbrev pub server_rows : Formats → List DBusEvent → List ServerRow
server_rows f [] = []
server_rows f (e ∷ rest) = server_row f e ∷ server_rows f rest

-- All rows are added, or none.
abbrev pub IsAtomic : Formats → List DBusEvent → Session → Result (Unit {0}) × Session → Type 0
IsAtomic f events before r =
    ((r.0 ≡ ok tt) × (r.1.table ≡ before.table ++ server_rows f events))
    ⊎ ((e : TimescaleError) × (r.0 ≡ err e) × (r.1.table ≡ before.table))

-- In a transaction the table stays, and what returned has put its rows behind the uncommitted ones.
record IsPending (f : Formats) (events : List DBusEvent) (c : Connection) (r : Bool × Connection)
    : Type 0 where
  table : r.1.table ≡ c.table
  uncommitted : r.0 ≡ true → r.1.uncommitted ≡ c.uncommitted ++ server_rows f events

IsPending-next :
    (f : Formats) (e : DBusEvent) (rest : List DBusEvent) (c : Connection) (r : Bool × Connection)
    → IsPending f rest (record c { uncommitted = c.uncommitted ++ server_row f e ∷ [] }) r
    → IsPending f (e ∷ rest) c r
IsPending-next f e rest c r h = record {
  table = h.table;
  uncommitted =
      λ t. h.uncommitted t ∙ append_assoc c.uncommitted (server_row f e ∷ []) (server_rows f rest);
}

insert_event-transaction :
    (f : Formats) (e : DBusEvent) (c : Connection)
    → c.in_transaction ≡ true
    → insert_event f e c ≡ record c { uncommitted = c.uncommitted ++ server_row f e ∷ [] }
unfolding insert_event
insert_event-transaction f e c open_ = rw open_

insert_events-IsPending :
    (f : Formats) (failing : Option ℕ) (events : List DBusEvent) (c : Connection)
    → c.in_transaction ≡ true
    → IsPending f events c (insert_events f failing events c)
unfolding insert_events
insert_events-IsPending f failing [] c open_ = record {
  table = refl;
  uncommitted = λ _. sym (append-nil c.uncommitted);
}
insert_events-IsPending f (some zero) (e ∷ rest) c open_ = record {
  table = refl;
  uncommitted = λ t. absurd (ground (arith, t));
}
insert_events-IsPending f (some (suc n)) (e ∷ rest) c open_ =
    let next : Connection = record c { uncommitted = c.uncommitted ++ server_row f e ∷ [] } in
    subst (λ d. IsPending f (e ∷ rest) c (insert_events f (some n) rest d))
      (sym (insert_event-transaction f e c open_))
      (IsPending-next f e rest c (insert_events f (some n) rest next)
        (insert_events-IsPending f (some n) rest next open_))
insert_events-IsPending f none (e ∷ rest) c open_ =
    let next : Connection = record c { uncommitted = c.uncommitted ++ server_row f e ∷ [] } in
    subst (λ d. IsPending f (e ∷ rest) c (insert_events f none rest d))
      (sym (insert_event-transaction f e c open_))
      (IsPending-next f e rest c (insert_events f none rest next)
        (insert_events-IsPending f none rest next open_))

get_pool-table :
    (lib : UrlLib) (env : PoolEnv) (s : Session) → (get_pool lib env s).1.table ≡ s.table
unfolding get_pool
get_pool-table lib env s =
    if_elim Same s.storage.has_pool (λ _. refl)
      (λ _. checked_table (validate_password_source lib s.storage.config))
  where
    Same : Result (Unit {0}) × Session → Type 0
    Same r = r.1.table ≡ s.table

    opened_table :
        (password : Result (Option (List ℕ))) → (open_pool env s password).1.table ≡ s.table
    opened_table (err e) = refl
    opened_table (ok password) =
        if_elim (λ (r : Result (Unit {0}) × Session). r.1.table ≡ s.table) (not env.creates)
          (λ _. refl)
          (λ _.
            if_elim (λ (r : Result (Unit {0}) × Session). r.1.table ≡ s.table)
              (not env.schema_works) (λ _. refl) (λ _. refl))

    checked_table : (c : Result (Unit {0})) → (open_checked env s c).1.table ≡ s.table
    checked_table (err e) = refl
    checked_table (ok done) =
        opened_table (password_of_file s.storage.config.timescaledb_password_file env.read)

release-IsAtomic :
    (f : Formats) (commits : Bool) (events : List DBusEvent) (before s : Session)
    (r : Bool × Connection)
    → s.table ≡ before.table
    → IsPending f events (begin_transaction (acquire s)) r
    → IsAtomic f events before (release s (end_transaction commits r))
release-IsAtomic f commits events before s (false, c) h p =
    inr (statement_failed, refl, p.table ∙ h)
release-IsAtomic f false events before s (true, c) h p = inr (statement_failed, refl, p.table ∙ h)
release-IsAtomic f true events before s (true, c) h p = inl (
  refl,
  ap (λ t. t ++ c.uncommitted) (p.table ∙ h)
      ∙ ap (λ rows. before.table ++ rows) (p.uncommitted refl),
)

-- The transaction on a session that kept the table.
transaction-IsAtomic :
    (f : Formats) (env : PoolEnv) (events : List DBusEvent) (before : Session)
    (r : Result (Unit {0}) × Session)
    → r.1.table ≡ before.table
    → IsAtomic f events before
        (with_connection (transaction env (insert_events f env.failing events)) r)
transaction-IsAtomic f env events before (err e, s) h = inr (e, refl, h)
transaction-IsAtomic f env events before (ok done, s) h =
    let begun = begin_transaction (acquire s) in
    release-IsAtomic f env.commits events before s (insert_events f env.failing events begun) h
      (insert_events-IsPending f env.failing events begun refl)

-- A batch is atomic, whichever of its INSERTs or its COMMIT fails, and also if no pool can be had:
-- either it returns and the rows of all its events are added in their order, or it raises and the
-- table is as before.
pub insert_batch-IsAtomic :
    (f : Formats) (lib : UrlLib) (env : PoolEnv) (events : List DBusEvent) (s : Session)
    → IsAtomic f events s (insert_batch f lib env events s)
unfolding insert_batch
insert_batch-IsAtomic f lib env [] s = inl (refl, sym (append-nil s.table))
insert_batch-IsAtomic f lib env (e ∷ rest) s =
    transaction-IsAtomic f env (e ∷ rest) s (get_pool lib env s) (get_pool-table lib env s)
