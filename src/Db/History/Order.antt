-- ===== src/Db/History/Order.antt =====
-- What db_reader_history_last_json of src/core/db_sqlite.c returns for stored samples.
use telemetry_platform_testb.Base.{take, ℕ, Bool, true, List, [], ◌∷◌, ◌++◌, map}
use telemetry_platform_testb.Types.{CString, TelemetryState}
use telemetry_platform_testb.Db.StrBuf.{StrBuf}
use telemetry_platform_testb.Db.Rows.{Value, Conversions, bindings}
use telemetry_platform_testb.Db.Rows.Json.{Printf}
use telemetry_platform_testb.Db.Rows.Replay.{selected, IsStorable, Faithful}

-- There is memory for everything.
abbrev pub always : ℕ → Bool
always n = true

abbrev pub backwards : {A : Type 0} → List A → List A
backwards [] = []
backwards (x ∷ xs) = backwards xs ++ (x ∷ [])

-- Texts with a comma between each two.
abbrev pub separated : List CString → CString
separated [] = []
separated (x ∷ []) = x
separated (x ∷ y ∷ ys) = x ++ (b',' ∷ separated (y ∷ ys))

closed : List CString → CString
closed [] = []
closed (x ∷ xs) = x ++ (b',' ∷ closed xs)

module _ {F R : Type 0} (p : Printf R) (v : Conversions R) (double : F → R)
    (laws : Faithful p v) where
  abbrev pub AllStorable : List (TelemetryState F) → Type 0
  AllStorable [] = Unit {0}
  AllStorable (s ∷ ss) = IsStorable laws.is_nan double s × AllStorable ss

  abbrev pub rows_of : List (TelemetryState F) → List (List (Value R))
  rows_of ss = map (λ s. selected (bindings double s)) ss

  -- What `ORDER BY id DESC LIMIT ?` documents, for a table that has the rows of `all` in the order of their
  -- inserts: those of the last samples, newest first.
  abbrev pub newest : ℕ → List (TelemetryState F) → List (TelemetryState F)
  newest n all = take n (backwards all)
