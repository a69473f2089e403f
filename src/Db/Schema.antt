-- ===== src/Db/Schema.antt =====
-- The schema and its versions in src/core/db_sqlite.c: exec_sql, column_exists, ensure_column,
-- db_apply_pragmas, db_migrate_v2, db_upgrade_v1_to_v2 and db_ensure_schema. SQLite is a parameter. A
-- statement is its text; the arrays of snprintf cut it as in the source.
pub mod Upgrade
mod Examples
use telemetry_platform_testb.Base.{
  ℕ, zero, suc, Bool, true, false, not, ◌&&◌, ◌||◌, List, [], ◌∷◌, ◌++◌, Option, none, some, take,
  ◌==◌, codes, same_string, if◌then◌else◌,
}
use telemetry_platform_testb.Base.Int.{ℤ, pos, eqb_ℤ}
use telemetry_platform_testb.Types.{CString}

-- What the file uses of SQLite: sqlite3_exec, with whether it returned SQLITE_OK; the texts in column 1
-- of the rows of a query, none where sqlite3_prepare_v2 fails; and the integer in column 0 of its
-- first row, if it has one.
pub record Sqlite (D : Type 0) : Type 0 where
  pub exec : CString → D → Bool × D
  pub names : CString → D → Option (List (Option CString))
  pub first_int : CString → D → Option (Option ℤ)

abbrev pub telemetry_state : CString
telemetry_state = codes "telemetry_state"

-- `cols` of db_migrate_v2 and db_upgrade_v1_to_v2.
abbrev pub motor_columns : List CString
motor_columns =
    codes "motor1_id TEXT"
    ∷ codes "motor1_tics INTEGER"
    ∷ codes "motor1_rpm INTEGER"
    ∷ codes "motor1_temperature_c INTEGER"
    ∷ codes "motor1_voltage_power_stage_mv INTEGER"
    ∷ codes "motor1_current_power_stage_ma INTEGER"
    ∷ codes "motor2_id TEXT"
    ∷ codes "motor2_tics INTEGER"
    ∷ codes "motor2_rpm INTEGER"
    ∷ codes "motor2_temperature_c INTEGER"
    ∷ codes "motor2_voltage_power_stage_mv INTEGER"
    ∷ codes "motor2_current_power_stage_ma INTEGER"
    ∷ []

-- The indented lines of the CREATE TABLE, the two CREATE INDEX behind it, each with its newline.
abbrev pub schema_lines : List CString
schema_lines =
    codes "CREATE TABLE IF NOT EXISTS telemetry_state ("
    ∷ codes "  id INTEGER PRIMARY KEY AUTOINCREMENT,"
    ∷ codes "  received_at_ns INTEGER NOT NULL,"
    ∷ codes "  topic TEXT NOT NULL,"
    ∷ codes "  robot_id TEXT,"
    ∷ codes "  seq INTEGER,"
    ∷ codes "  msg_timestamp_ns INTEGER,"
    ∷ codes "  imu_id TEXT,"
    ∷ codes "  acc_x REAL, acc_y REAL, acc_z REAL,"
    ∷ codes "  gyro_x REAL, gyro_y REAL, gyro_z REAL,"
    ∷ codes "  tilt_id TEXT,"
    ∷ codes "  tilt_x REAL, tilt_y REAL, tilt_z REAL,"
    ∷ codes "  tilt_status INTEGER,"
    ∷ codes "  motor1_id TEXT,"
    ∷ codes "  motor1_tics INTEGER,"
    ∷ codes "  motor1_rpm INTEGER,"
    ∷ codes "  motor1_temperature_c INTEGER,"
    ∷ codes "  motor1_voltage_power_stage_mv INTEGER,"
    ∷ codes "  motor1_current_power_stage_ma INTEGER,"
    ∷ codes "  motor2_id TEXT,"
    ∷ codes "  motor2_tics INTEGER,"
    ∷ codes "  motor2_rpm INTEGER,"
    ∷ codes "  motor2_temperature_c INTEGER,"
    ∷ codes "  motor2_voltage_power_stage_mv INTEGER,"
    ∷ codes "  motor2_current_power_stage_ma INTEGER,"
    ∷ codes "  raw BLOB"
    ∷ codes ");"
    ∷ codes "CREATE INDEX IF NOT EXISTS idx_state_received ON telemetry_state(received_at_ns);"
    ∷ codes
        "CREATE INDEX IF NOT EXISTS idx_state_robot_received ON telemetry_state(robot_id, received_at_ns);"
    ∷ []

pub joined_lines : List CString → CString
joined_lines [] = []
joined_lines (l ∷ ls) = l ++ (10 ∷ joined_lines ls)

pub schema : CString
unfolding joined_lines
schema = joined_lines schema_lines

-- The first word of a column definition, at most `n` bytes of it.
unfoldable pub column_name : ℕ → CString → CString
column_name zero def = []
column_name (suc n) [] = []
column_name (suc n) (c ∷ def) = if c == b' ' then [] else c ∷ column_name n def

unfoldable pub table_info : CString → CString
table_info table = take 255 (codes "PRAGMA table_info(" ++ (table ++ codes ");"))

unfoldable pub add_column : CString → CString → CString
add_column table def =
    take 511 (codes "ALTER TABLE " ++ (table ++ (codes " ADD COLUMN " ++ (def ++ codes ";"))))

-- The loop over the rows: is one of the names, where it is not NULL, the column's?
unfoldable pub among : CString → List (Option CString) → Bool
among col [] = false
among col (none ∷ rows) = among col rows
among col (some name ∷ rows) = same_string name col || among col rows

-- A query that cannot be prepared finds nothing.
pub among_rows : CString → Option (List (Option CString)) → Bool
among_rows col none = false
among_rows col (some rows) = among col rows

-- The pointers are not NULL.
module _ {D : Type 0} (sqlite : Sqlite D) where
  open sqlite use {exec, names, first_int}

  pub column_exists : CString → CString → D → Bool
  unfolding among_rows
  column_exists table col d = among_rows col (names (table_info table) d)

  -- True is 0, and false -1.
  pub ensure_column : CString → CString → D → Bool × D
  unfolding column_exists
  ensure_column table def d =
      if column_exists table (column_name 127 def) d
      then (true, d)
      else exec (add_column table def) d

  -- `if(f(db) != 0) return -1;` and what comes next.
  pub and_then : Bool × D → (D → Bool × D) → Bool × D
  and_then (true, d) next = next d
  and_then (false, d) next = (false, d)

  pub ensure_columns : CString → List CString → D → Bool × D
  unfolding and_then
  ensure_columns table [] d = (true, d)
  ensure_columns table (def ∷ defs) d =
      and_then (ensure_column table def d) (ensure_columns table defs)

  pub db_apply_pragmas : D → Bool × D
  unfolding and_then
  db_apply_pragmas d = and_then (exec (codes "PRAGMA journal_mode=WAL;") d) (λ d.
      and_then (exec (codes "PRAGMA synchronous=NORMAL;") d)
        (exec (codes "PRAGMA foreign_keys=ON;")))

  -- The end of both migrations.
  pub add_motor_columns : D → Bool × D
  unfolding and_then
  add_motor_columns d =
      and_then (ensure_columns telemetry_state motor_columns d)
        (exec (codes "PRAGMA user_version=2;"))

  pub db_migrate_v2 : D → Bool × D
  unfolding and_then
  db_migrate_v2 d = and_then (db_apply_pragmas d) (λ d. and_then (exec schema d) add_motor_columns)

  pub db_upgrade_v1_to_v2 : D → Bool × D
  unfolding and_then
  db_upgrade_v1_to_v2 d = and_then (db_apply_pragmas d) add_motor_columns

  pub at_version : ℤ → D → Bool × D
  at_version v d =
      let migrated = db_migrate_v2 d in
      let upgraded = db_upgrade_v1_to_v2 d in
      if eqb_ℤ v (pos 0)
      then migrated
      else if eqb_ℤ v (pos 1)
      then upgraded
      else if eqb_ℤ v (pos 2)
      then (true, d)
      else (false, d)

  -- A query without a row leaves user_version at 0.
  pub on_version : Option (Option ℤ) → D → Bool × D
  unfolding at_version
  on_version none d = (false, d)
  on_version (some none) d = at_version (pos 0) d
  on_version (some (some v)) d = at_version v d

  pub db_ensure_schema : D → Bool × D
  unfolding on_version
  db_ensure_schema d = on_version (first_int (codes "PRAGMA user_version;") d) d
