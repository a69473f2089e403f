-- ===== src/Db/StrBuf/Examples.antt =====
-- Growth from nothing, and the theorems of Db/StrBuf/Growth at a small text.
use telemetry_platform_testb.Base.{
  ℕ, ◌<◌, ◌≡◌, ◌⊎◌, refl, Bool, false, [], ◌∷◌, ◌++◌, none, some, length, leb,
}
use telemetry_platform_testb.Db.StrBuf.{StrBuf, empty_buf, doubled, sb_reserve, sb_appendf}
use telemetry_platform_testb.Db.StrBuf.Growth.{sb_appendf-put}

abbrev a_megabyte : ℕ → Bool
a_megabyte n = leb n 1048576

grows : sb_reserve a_megabyte empty_buf 5000 ≡ some (record { text = []; cap = 8192 })
unfolding sb_reserve doubled
grows = refl

sb_appendf-put_example :
    ((sb_appendf a_megabyte empty_buf (some (123 ∷ 125 ∷ [])) ≡ none)
      × ((n : ℕ) × (a_megabyte n ≡ false)))
    ⊎ ((after : StrBuf) × (sb_appendf a_megabyte empty_buf (some (123 ∷ 125 ∷ [])) ≡ some after)
        × (after.text ≡ [] ++ (123 ∷ 125 ∷ []))
        × (length after.text < after.cap))
sb_appendf-put_example = sb_appendf-put a_megabyte empty_buf (123 ∷ 125 ∷ [])
