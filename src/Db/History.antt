-- ===== src/Db/History.antt =====
-- db_reader_history_last_json of src/core/db_sqlite.c. The rows that the SELECT yields are given, newest
-- first; `room` tells which sizes malloc, calloc and realloc grant.
pub mod Order
mod Examples
use telemetry_platform_testb.Base.{
  ℕ, zero, suc, ◌+◌, ◌*◌, Bool, true, false, List, [], ◌∷◌, ◌++◌, Option, none, some, ltb, ◌==◌,
  codes, ◌>>=◌, if◌then◌else◌,
}
use telemetry_platform_testb.Base.Int.{ℤ, pos, negsuc, ltb_ℤ, pos_part}
use telemetry_platform_testb.Types.{CString}
use telemetry_platform_testb.Db.StrBuf.{StrBuf, empty_buf, sb_append}
use telemetry_platform_testb.Db.Rows.{Value, Conversions}
use telemetry_platform_testb.Db.Rows.Json.{Printf, append_row_as_sample_json}

-- `if(limit <= 0) limit = 300; if(limit > 5000) limit = 5000;`
pub clamp_limit : ℤ → ℕ
clamp_limit (negsuc n) = 300
clamp_limit (pos zero) = 300
clamp_limit (pos (suc n)) = if ltb 5000 (suc n) then 5000 else suc n

-- An append whose result is ignored.
unfoldable pub or_keep : StrBuf → Option StrBuf → StrBuf
or_keep sb none = sb
or_keep sb (some after) = after

unfoldable pub attempt : (ℕ → Bool) → CString → StrBuf → StrBuf
unfolding or_keep
attempt room s sb = or_keep sb (sb_append room sb s)

-- The second loop, on the rows from index `i`: it runs from the last row to row 0.
unfoldable pub emit : (ℕ → Bool) → ℕ → List CString → StrBuf → StrBuf
unfolding attempt
emit room i [] sb = sb
emit room i (r ∷ rs) sb =
    let one = attempt room r (emit room (suc i) rs sb) in
    if i == 0 then one else attempt room (codes ",") one

-- The text of a row in front of the later ones, or `break`.
unfoldable pub printed : Option StrBuf → List CString → List CString
printed none rest = []
printed (some one) rest = one.text ∷ rest

module _ {R : Type 0} (p : Printf R) (v : Conversions R) (room : ℕ → Bool) where
  -- The first loop: at most `n` rows are printed, up to the first that cannot be.
  unfoldable pub print_rows : ℕ → List (List (Value R)) → List CString
  unfolding printed
  print_rows zero rows = []
  print_rows (suc n) [] = []
  print_rows (suc n) (row ∷ rows) =
      printed (append_row_as_sample_json p v room empty_buf row) (print_rows n rows)

  -- On valid pointers: none for an error. `query` is the SELECT, whose ORDER BY SQLite carries out, with
  -- its LIMIT, or none where it cannot be prepared.
  unfoldable pub db_reader_history_last_json :
      (ℕ → Option (List (List (Value R)))) → ℤ → Option CString
  unfolding clamp_limit print_rows emit
  db_reader_history_last_json query limit = query (clamp_limit limit) >>= λ rows.
      sb_append room empty_buf (codes "{\"type\":\"history\",\"items\":[") >>= λ sb.
      if room (clamp_limit limit * 8)
      then (sb_append room (emit room 0 (print_rows (clamp_limit limit) rows) sb) (codes "]}")
          >>= λ done. some done.text)
      else none
