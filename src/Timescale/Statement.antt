-- ===== src/Timescale/Statement.antt =====
-- The statement that `TimescaleDBStorage.query` of src/dbus_event_log/storage.py builds: conditions
-- with numbered placeholders, and the list of parameters that they refer to.
pub mod Numbering
use Prim.Native.String.{◌++◌ as str_append}
use dbus_event_log.Prelude.{
  ℕ, zero, suc, ◌+◌, ◌-◌, ◌≤◌, ◌<◌, ◌≡◌, refl, ap, sym, ◌∙◌, String, Bool, true, false, ◌&&◌,
  Option, none, some, List, [], ◌∷◌, ◌++◌, All, length, length-append, leb, str_eq, is_some,
  if◌then◌else◌, if_elim, arith,
}
use dbus_event_log.Event.{ℤ, pos, negsuc}
use dbus_event_log.Event.Kinds.{EventType, event_type_value}
use dbus_event_log.Storage.Time.{Formats, Stamp, to_utc, utc_timestamp}
use dbus_event_log.Storage.Query.{Filters, Bounds}
use dbus_event_log.Timescale.{Result, ok, err, invalid_timestamp}

-- What asyncpg sends for a placeholder.
pub data Param : Type 0 where
  instant : Stamp → Param
  text : String → Param
  number : ℤ → Param

-- The left side and the operator of a condition.
pub data Comparison : Type 0 where
  timestamp_ge timestamp_le service_ilike event_type_eq : Comparison

-- `f"… ${param_idx}"`
pub record Condition : Type 0 where
  pub comparison : Comparison
  pub index : ℕ

-- `conditions`, `params` and `param_idx`.
pub record Builder : Type 0 where
  pub conditions : List Condition
  pub params : List Param
  pub param_idx : ℕ

-- The query that is sent: the placeholders of LIMIT and OFFSET, and all parameters.
pub record Statement : Type 0 where
  pub where_ : List Condition
  pub limit_index : ℕ
  pub offset_index : ℕ
  pub params : List Param

abbrev pub start_builder : Builder
start_builder = record { conditions = []; params = []; param_idx = 1 }

-- One of the four blocks that add a condition.
unfoldable pub add_condition : Comparison → Param → Builder → Builder
add_condition c p b = record {
  conditions = b.conditions ++ record { comparison = c; index = b.param_idx } ∷ [];
  params = b.params ++ p ∷ [];
  param_idx = b.param_idx + 1;
}

-- `_query_timestamp`: a timestamp without an offset means UTC; asyncpg gets an aware one.
abbrev aware : Stamp → Stamp
aware s = elim s.offset [ none ↦ record s { offset = some (pos 0) } | some o ↦ s ]

abbrev pub query_timestamp : Formats → String → Result Stamp
query_timestamp f value = elim (f.fromisoformat value) [
  | none ↦ err invalid_timestamp
  | some s ↦ ok (aware s)
]

abbrev add_instant : Comparison → Result Stamp → Builder → Result Builder
add_instant c (err e) b = err e
add_instant c (ok s) b = ok (add_condition c (instant s) b)

abbrev pub add_time : Formats → Comparison → Option String → Builder → Result Builder
add_time f c none b = ok b
add_time f c (some value) b =
    if str_eq value "" then ok b else add_instant c (query_timestamp f value) b

abbrev pub add_service : Option String → Builder → Builder
add_service none b = b
add_service (some service) b =
    if str_eq service ""
    then b
    else add_condition service_ilike (text (str_append "%" (str_append service "%"))) b

abbrev pub add_type : Option EventType → Builder → Builder
add_type none b = b
add_type (some t) b = add_condition event_type_eq (text (event_type_value t)) b

-- `LIMIT` and `OFFSET`
abbrev pub finish : Filters → Builder → Statement
finish q b = record {
  where_ = b.conditions;
  limit_index = b.param_idx;
  offset_index = b.param_idx + 1;
  params = b.params ++ number q.limit ∷ number q.offset ∷ [];
}

abbrev pub built : Filters → Result Builder → Result Statement
built q (err e) = err e
built q (ok b) = ok (finish q (add_type q.event_type (add_service q.service b)))

abbrev pub with_end : Formats → Filters → Result Builder → Result Builder
with_end f q (err e) = err e
with_end f q (ok b) = add_time f timestamp_le q.end_time b

unfoldable pub statement : Formats → Filters → Result Statement
statement f q = built q (with_end f q (add_time f timestamp_ge q.start_time start_builder))

-- The parameter of a placeholder; `$1` is the first.
unfoldable pub param_at : ℕ → List Param → Option Param
param_at n [] = none
param_at zero (p ∷ rest) = none
param_at (suc zero) (p ∷ rest) = some p
param_at (suc (suc n)) (p ∷ rest) = param_at (suc n) rest

-- A placeholder and its parameter, as the server puts them together.
unfoldable pub bound : List Condition → List Param → List (Comparison × Option Param)
bound [] params = []
bound (c ∷ rest) params = (c.comparison, param_at c.index params) ∷ bound rest params
