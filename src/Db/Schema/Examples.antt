-- ===== src/Db/Schema/Examples.antt =====
-- A small database, and an upgrade of it from version 1.
use telemetry_platform_testb.Base.{
  Bool, true, List, [], ◌∷◌, map, some, take, drop, codes, same_string, if◌then◌else◌,
}
use telemetry_platform_testb.Base.Int.{ℤ, pos}
use telemetry_platform_testb.Types.{CString}
use telemetry_platform_testb.Db.Schema.{Sqlite, column_name}
use telemetry_platform_testb.Db.Schema.Upgrade.{set_version}

record Disk : Type 0 where
  columns : List CString
  version : ℤ

-- A statement that alters the table adds a column, the one that sets the version does so, and the others
-- change nothing here.
execute : CString → Disk → Bool × Disk
unfolding same_string column_name
execute sql d =
    if same_string (take 5 sql) (codes "ALTER")
    then (true, record d { columns = column_name 127 (drop 39 sql) ∷ d.columns })
    else if same_string sql set_version
    then (true, record d { version = pos 2 })
    else (true, d)

abbrev small : Sqlite Disk
small = record {
  exec = execute;
  names = λ sql d. some (map some d.columns);
  first_int = λ sql d. some (some d.version);
}

abbrev old_disk : Disk
old_disk = record { columns = codes "id" ∷ codes "motor1_id" ∷ []; version = pos 1 }

abbrev unknown_disk : Disk
unknown_disk = record { columns = []; version = pos 7 }
