-- ===== src/Tests/Credentials.antt =====
-- A password file of src/dbus_event_log/credentials.py at a concrete input: `hi` with a line
-- ending.
use dbus_event_log.Prelude.{ℕ, true, Option, some, List, [], ◌∷◌, ◌≡◌, ◌↔◌}
use dbus_event_log.Credentials.{PasswordFile, read_password_file, read_password_file_iff, Readable}

abbrev ascii : List ℕ → Option (List ℕ)
ascii bytes = some bytes

abbrev hi_file : PasswordFile
hi_file = record { is_regular = true; size = 3; content = 104 ∷ 105 ∷ 10 ∷ [] }

read_password_file_iff_example :
    (read_password_file ascii (some hi_file) ≡ some (104 ∷ 105 ∷ []))
    ↔ Readable ascii hi_file (104 ∷ 105 ∷ [])
read_password_file_iff_example = read_password_file_iff ascii hi_file (104 ∷ 105 ∷ [])
