-- ===== src/Base/Sql.antt =====
-- The answers of SQL statements, as `database/sql` and `sqlx` give them.
use mathlib.Core.Bool.{Bool, true, false}
use mathlib.Core.Option.{Option, none, some}

-- `QueryRow(…).Scan`: an error, `sql.ErrNoRows`, or a value.
pub data Scan (A : Type 0) : Type 0 where
  scan_error : Scan A
  no_rows : Scan A
  scanned : A → Scan A

abbrev pub scan_unless : {A : Type 0} → Bool → Scan A → Scan A
scan_unless true s = scan_error
scan_unless false s = s

abbrev pub unless_fails : {A : Type 0} → Bool → A → Option A
unless_fails true a = none
unless_fails false a = some a
