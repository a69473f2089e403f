-- ===== src/Db/StrBuf/Growth.antt =====
-- Bounds and contents of the growing string of src/core/db_sqlite.c.
use telemetry_platform_testb.Base.{
  ℕ, zero, suc, ◌+◌, ◌*◌, ◌≤◌, ◌<◌, ◌≡◌, ◌⊎◌, inl, inr, refl, ap, arith, Bool, false, List, [],
  ◌++◌, none, some, length, length-append, ◌==◌, dec_le, dec_lt, le→leb, lt→leb, le→ltb, lt→ltb,
  Bool-cases, if◌then◌else◌,
}
use telemetry_platform_testb.Db.StrBuf.{
  StrBuf, doubled, sb_reserve, put_text, append_reserved, sb_append, sb_appendf,
}

-- The text and its NUL lie within the buffer, or there is no buffer.
pub IsStrBuf : StrBuf → Type 0
IsStrBuf sb = (length sb.text < sb.cap) ⊎ ((sb.cap ≡ 0) × (sb.text ≡ []))

doubled_lem :
    (fuel ncap needed : ℕ)
    → 0 < ncap
    → needed ≤ ncap + fuel
    → (needed ≤ doubled fuel ncap needed)
      × (ncap ≤ doubled fuel ncap needed)
      × ((doubled fuel ncap needed ≡ ncap) ⊎ (doubled fuel ncap needed < 2 * needed))
unfolding doubled
doubled_lem zero ncap needed pos enough = (omega arith, omega arith, inl refl)
doubled_lem (suc fuel) ncap needed pos enough =
    let r = doubled_lem fuel (ncap * 2) needed in ground (arith, r)

-- sb_reserve keeps the text and fails only for want of room; otherwise `extra` bytes and a NUL fit
-- behind the text, and the buffer is not needlessly large: below twice what is needed, or the 1024
-- bytes it starts with, or as large as it was.
pub sb_reserve_lem :
    (room : ℕ → Bool) (sb : StrBuf) (extra : ℕ)
    → ((sb_reserve room sb extra ≡ none)
        × (sb.cap < length sb.text + extra + 1)
        × ((n : ℕ) × (room n ≡ false)))
      ⊎ ((after : StrBuf) × (sb_reserve room sb extra ≡ some after)
          × (after.text ≡ sb.text)
          × (length sb.text + extra < after.cap)
          × ((after.cap ≡ sb.cap)
              ⊎ (after.cap ≡ 1024)
              ⊎ (after.cap < 2 * (length sb.text + extra + 1))))
unfolding sb_reserve
sb_reserve_lem room sb extra =
    let needed = length sb.text + extra + 1 in
    let start = if sb.cap == 0 then 1024 else sb.cap in
    let start_pos : 0 < start = ground arith in
    let d = doubled_lem needed start needed start_pos (omega arith) in
    let grown = doubled needed start needed in
    elim (dec_le needed sb.cap) [
      | yes fits ↦ inr (sb, rw (le→leb needed sb.cap fits), refl, omega arith, inl refl)
      | no small ↦ elim (Bool-cases (room grown)) [
        | inl has ↦ inr (
          record sb { cap = grown },
          rw (lt→leb needed sb.cap (omega arith), has),
          refl,
          omega (arith, d.0),
          ground (arith, d),
        )
        | inr full ↦ inl (rw (lt→leb needed sb.cap (omega arith), full), omega arith, (grown, full))
      ]
    ]

pub sb_append-put :
    (room : ℕ → Bool) (sb : StrBuf) (s : List ℕ)
    → ((sb_append room sb s ≡ none) × ((n : ℕ) × (room n ≡ false)))
      ⊎ ((after : StrBuf) × (sb_append room sb s ≡ some after)
          × (after.text ≡ sb.text ++ s)
          × (length after.text < after.cap))
unfolding sb_append append_reserved put_text
sb_append-put room sb s = elim (sb_reserve_lem room sb (length s)) [
  | inl (stuck, _, full) ↦ inl (ap (append_reserved s) stuck, full)
  | inr (r, done, same, fits, _) ↦ inr (
    put_text s r,
    ap (append_reserved s) done,
    ap (λ t. t ++ s) same,
    omega (arith, ap length same, length-append r.text s),
  )
]

-- Printing a text of any length, through the array of 512 bytes or through a block of malloc, either
-- fails, and then some request for memory was refused, or puts exactly that text behind the old one
-- within the buffer.
pub sb_appendf-put :
    (room : ℕ → Bool) (sb : StrBuf) (s : List ℕ)
    → ((sb_appendf room sb (some s) ≡ none) × ((n : ℕ) × (room n ≡ false)))
      ⊎ ((after : StrBuf) × (sb_appendf room sb (some s) ≡ some after)
          × (after.text ≡ sb.text ++ s)
          × (length after.text < after.cap))
unfolding sb_appendf sb_append
sb_appendf-put room sb s = elim (dec_lt (length s) 512) [
  | yes short ↦ rw (lt→ltb (length s) 512 short) (sb_append-put room sb s)
  | no long ↦ elim (Bool-cases (room (length s + 1))) [
    | inl has ↦ rw (le→ltb (length s) 512 (omega arith), has) (sb_append-put room sb s)
    | inr full ↦ inl (rw (le→ltb (length s) 512 (omega arith), full), (length s + 1, full))
  ]
]
