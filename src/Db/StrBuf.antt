-- ===== src/Db/StrBuf.antt =====
-- The growing string of src/core/db_sqlite.c: strbuf_t, sb_reserve, sb_append, sb_appendf and sb_free.
-- Whether realloc and malloc have room is an argument; sizes are numbers, as no program string comes
-- near 2^63 bytes.
pub mod Growth
mod Examples
use telemetry_platform_testb.Base.{
  ℕ, zero, suc, ◌+◌, ◌*◌, Bool, true, false, List, [], ◌∷◌, ◌++◌, Option, none, some, length, leb,
  ltb, ◌==◌, if◌then◌else◌,
}

-- strbuf_t: `text` is the `len` bytes that buf holds in front of the NUL; a `cap` of 0 is a NULL buf.
pub record StrBuf : Type 0 where
  pub text : List ℕ
  pub cap : ℕ

-- strbuf_t sb = {0};
abbrev pub empty_buf : StrBuf
empty_buf = record { text = []; cap = 0 }

-- `while(ncap < needed) ncap *= 2;`
pub doubled : ℕ → ℕ → ℕ → ℕ
doubled zero ncap needed = ncap
doubled (suc fuel) ncap needed =
    let next = doubled fuel (ncap * 2) needed in if ltb ncap needed then next else ncap

-- None is -1. The capacity at least doubles in each turn, so `needed` turns are enough.
pub sb_reserve : (ℕ → Bool) → StrBuf → ℕ → Option StrBuf
unfolding doubled
sb_reserve room sb extra =
    let needed = length sb.text + extra + 1 in
    let ncap = doubled needed (if sb.cap == 0 then 1024 else sb.cap) needed in
    if leb needed sb.cap
    then some sb
    else if room ncap
    then some (record sb { cap = ncap })
    else none

-- What memcpy, the new length and the new NUL make of the text.
pub put_text : List ℕ → StrBuf → StrBuf
put_text s sb = record sb { text = sb.text ++ s }

pub append_reserved : List ℕ → Option StrBuf → Option StrBuf
unfolding put_text
append_reserved s none = none
append_reserved s (some sb) = some (put_text s sb)

pub sb_append : (ℕ → Bool) → StrBuf → List ℕ → Option StrBuf
unfolding append_reserved
sb_append room sb s = append_reserved s (sb_reserve room sb (length s))

-- sb_appendf: what vsnprintf makes of the format is given, or none for its error. A text of 512 bytes
-- or more goes through a block of malloc.
pub sb_appendf : (ℕ → Bool) → StrBuf → Option (List ℕ) → Option StrBuf
unfolding append_reserved
sb_appendf room sb none = none
sb_appendf room sb (some s) =
    if ltb (length s) 512
    then append_reserved s (sb_reserve room sb (length s))
    else if room (length s + 1)
    then sb_append room sb s
    else none

pub sb_free : StrBuf → StrBuf
sb_free sb = empty_buf
