-- ===== src/Commands/Output.antt =====
-- `_output_events` of src/dbus_event_log/cli.py: the forms in which events are shown.
use dbus_event_log.Prelude.{
  ℕ, zero, suc, String, Option, none, some, List, [], ◌∷◌, map, if◌then◌else◌, or_empty,
}
use dbus_event_log.Text.{is_empty}

-- The fields of an event that a table shows; `timestamp` and `arguments` are texts by `str`.
pub record Shown : Type 0 where
  pub timestamp : String
  pub event_type : String
  pub service_name : String
  pub object_path : String
  pub member : Option String
  pub arguments : String

pub data OutputFormat : Type 0 where
  table json csv : OutputFormat

-- A row of the table.
pub record Cells : Type 0 where
  pub time : String
  pub type_ : String
  pub service : String
  pub path : String
  pub member : String
  pub args : String

-- `s[:n]`
unfoldable pub take_text : ℕ → String → String
take_text zero s = String.[]
take_text (suc n) String.[] = String.[]
take_text (suc n) (String.◌∷◌ d s) = String.◌∷◌ d (take_text n s)

unfoldable pub cells : Shown → Cells
cells e = record {
  time = take_text 19 e.timestamp;
  type_ = e.event_type;
  service = take_text 30 e.service_name;
  path = take_text 30 e.object_path;
  member = take_text 20 (or_empty e.member);
  args = take_text 40 e.arguments;
}

-- What is written and where; a CSV file has the header of its first event.
pub data Output (A : Type 0) : Type 0 where
  json_written csv_written : String → List A → Output A
  json_echoed csv_printed : List A → Output A
  no_events : Output A
  table_printed : List Cells → Output A

abbrev output_json : {A : Type 0} → List A → Option String → Output A
output_json events none = json_echoed events
output_json events (some path) =
    if is_empty path then json_echoed events else json_written path events

abbrev output_csv : {A : Type 0} → List A → Option String → Output A
output_csv [] output = no_events
output_csv (e ∷ rest) none = csv_printed (e ∷ rest)
output_csv (e ∷ rest) (some path) =
    if is_empty path then csv_printed (e ∷ rest) else csv_written path (e ∷ rest)

abbrev output_table : {A : Type 0} → (A → Shown) → List A → Output A
output_table shown [] = no_events
output_table shown (e ∷ rest) = table_printed (map (λ x. cells (shown x)) (e ∷ rest))

-- `_output_events`
unfoldable pub output_events :
    {A : Type 0} → (A → Shown) → List A → OutputFormat → Option String → Output A
output_events shown events json output = output_json events output
output_events shown events csv output = output_csv events output
output_events shown events table output = output_table shown events
