-- ===== src/Db/Schema/Upgrade.antt =====
-- What db_ensure_schema of src/core/db_sqlite.c leaves, given what SQLite documents.
use telemetry_platform_testb.Base.{
  Option, ℕ, Bool, true, false, ◌||◌, List, [], ◌∷◌, map, none, some, codes, same_string, ◌≡◌, ◌≢◌,
  ◌⊎◌, inl, inr, ap, ◌∙◌, arith, Bool-cases,
}
use telemetry_platform_testb.Base.Int.{ℤ, pos, eqb_ℤ, eq_of_parts}
use telemetry_platform_testb.Types.{CString}
use telemetry_platform_testb.Db.Schema.{
  Sqlite, telemetry_state, motor_columns, column_name, table_info, add_column, db_migrate_v2,
  at_version, on_version, db_ensure_schema,
}

abbrev pub listed : CString → List CString → Bool
listed col [] = false
listed col (name ∷ names) = same_string name col || listed col names

abbrev pub AllListed : List CString → List CString → Type 0
AllListed [] names = Unit {0}
AllListed (def ∷ defs) names = (listed (column_name 127 def) names ≡ true) × AllListed defs names

abbrev pub set_version : CString
set_version = codes "PRAGMA user_version=2;"

module _ {D : Type 0} (sqlite : Sqlite D) (columns : D → List CString) (version : D → ℤ) where
  -- ALTER TABLE … ADD COLUMN, when it succeeds, adds the column; in any case no column goes away.
  abbrev pub Adds : List CString → Type 0
  Adds [] = Unit {0}
  Adds (def ∷ defs) =
      ((d : D)
        → let r = sqlite.exec (add_column telemetry_state def) d in
          (r.0 ≡ true → listed (column_name 127 def) (columns r.1) ≡ true)
          × ((col : CString) → listed col (columns d) ≡ true → listed col (columns r.1) ≡ true))
      × Adds defs

  -- What the schema code relies on: table_info lists the columns of the table, or cannot be prepared;
  -- a new column; user_version is read, unless the query cannot be prepared or its step gives no row, and
  -- written, and writing it leaves the columns alone.
  pub record Documented : Type 0 where
    pub info :
        (d : D)
        → (sqlite.names (table_info telemetry_state) d ≡ none)
          ⊎ (sqlite.names (table_info telemetry_state) d ≡ some (map some (columns d)))
    pub adds : Adds motor_columns
    pub reads :
        (d : D)
        → (sqlite.first_int (codes "PRAGMA user_version;") d ≡ none)
          ⊎ ((sqlite.first_int (codes "PRAGMA user_version;") d ≡ some none)
              ⊎ (sqlite.first_int (codes "PRAGMA user_version;") d ≡ some (some (version d))))
    pub writes :
        (d : D)
        → (sqlite.exec set_version d).0 ≡ true
        → version (sqlite.exec set_version d).1 ≡ pos 2
    pub keeps : (d : D) → columns (sqlite.exec set_version d).1 ≡ columns d

  module _ (laws : Documented) where
    abbrev pub Current : D → Type 0
    Current d = AllListed motor_columns (columns d) × (version d ≡ pos 2)

    eqb_ℤ_ne : (v : ℤ) (n : ℕ) → v ≢ pos n → eqb_ℤ v (pos n) ≡ false
    eqb_ℤ_ne v n ne = elim (Bool-cases (eqb_ℤ v (pos n))) [
      | inl eq ↦ absurd (ne (eq_of_parts v (pos n) (ground arith)))
      | inr neq ↦ neq
    ]

    -- What db_ensure_schema does at a version that it reads.
    abbrev read_version : D → Option (Option ℤ)
    read_version d = sqlite.first_int (codes "PRAGMA user_version;") d

    ensure-at :
        (d : D) (o : Option (Option ℤ))
        → read_version d ≡ o
        → db_ensure_schema sqlite d ≡ on_version sqlite o d
    unfolding db_ensure_schema
    ensure-at d o e = ap (λ o. on_version sqlite o d) e

    -- A database of version 2 is accepted and one of any other version but 0 and 1 is refused, both
    -- without executing a statement, where the version is read.
    pub db_ensure_schema-leaves :
        (d : D)
        → version d ≢ pos 0
        → version d ≢ pos 1
        → sqlite.first_int (codes "PRAGMA user_version;") d ≡ some (some (version d))
        → db_ensure_schema sqlite d ≡ (eqb_ℤ (version d) (pos 2), d)
    unfolding at_version on_version
    db_ensure_schema-leaves d not0 not1 e =
        ensure-at d (some (some (version d))) e
        ∙ rw (eqb_ℤ_ne (version d) 0 not0, eqb_ℤ_ne (version d) 1 not1) (ground arith)

    -- What a call comes to on a database of version 2.
    abbrev pub Repeats : D → Type 0
    Repeats d =
        (db_ensure_schema sqlite d ≡ (true, d))
        ⊎ ((db_ensure_schema sqlite d ≡ (false, d))
            ⊎ (db_ensure_schema sqlite d ≡ db_migrate_v2 sqlite d))
