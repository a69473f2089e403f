-- ===== src/Ws/Frame/RoundTrip.antt =====
-- The frames of RFC 6455, section 5.2, against ws_recv_frame of src/core/ws_server.c.
use Prim.Native.Nat.{bit_xor}
use telemetry_platform_testb.Base.{
  ◌>>=◌, ℕ, zero, suc, ◌+◌, ◌*◌, ◌/◌, ◌%◌, ◌^◌, ◌≤◌, ◌<◌, ◌≡◌, refl, ap, ap₂, sym, ◌∙◌, ◌⊎◌, Bool,
  true, false, List, [], ◌∷◌, ◌++◌, append_assoc, Option, none, some, arith, length, get_or, leb,
  le→ltb, lt→ltb, ◌==◌, ==_iff, dec_le, IsBytes, big_endian, passes, passes-at, if◌then◌else◌,
}
use telemetry_platform_testb.Ws.Socket.{Arrival, recv_all}
use telemetry_platform_testb.Ws.Socket.Delivery.{available, recv_all-front}
use telemetry_platform_testb.Ws.Frame.{
  ws_max_payload, be_value, read_length, unmask, read_mask, read_payload, read_rest, ws_recv_frame,
}

-- The 7-bit length field, and the extended length behind it.
abbrev pub length_field : ℕ → ℕ
length_field len = if leb len 125 then len else if leb len 65535 then 126 else 127

abbrev pub extended_length : ℕ → List ℕ
extended_length len =
    if leb len 125 then [] else if leb len 65535 then big_endian 2 len else big_endian 8 len

-- A final frame: opcode, mask bit and length, the masking key if there is one, and the payload.
abbrev pub frame : ℕ → Bool → List ℕ → List ℕ → List ℕ
frame opcode masked key payload =
    (128 + opcode)
    ∷ ((if masked then 128 else 0) + length_field (length payload))
    ∷ (extended_length (length payload)
        ++ (if masked then key ++ unmask key 0 payload else payload))

-- Every byte under every key, by evaluation.
undone : ℕ → ℕ → Bool
undone k x = bit_xor (bit_xor x k) k == x

undone_everywhere : passes (λ k. passes (undone k) 256) 256 ≡ true
unfolding passes undone
undone_everywhere = refl

xor_twice : (x k : ℕ) → x < 256 → k < 256 → bit_xor (bit_xor x k) k ≡ x
unfolding undone
xor_twice x k hx hk =
    let row = passes-at (λ k. passes (undone k) 256) 256 undone_everywhere k hk in
    (==_iff (bit_xor (bit_xor x k) k) x).0 (passes-at (undone k) 256 row x hx)

IsBytes-get_or : (bs : List ℕ) (i : ℕ) → IsBytes bs → get_or bs i 0 < 256
IsBytes-get_or [] i h = omega arith
IsBytes-get_or (b ∷ bs) zero h = h.0
IsBytes-get_or (b ∷ bs) (suc i) h = IsBytes-get_or bs i h.1

-- Masking twice with one key gives the payload back, and masking keeps its length.
unmask-unmask :
    (key : List ℕ) (i : ℕ) (bs : List ℕ)
    → IsBytes key
    → IsBytes bs
    → unmask key i (unmask key i bs) ≡ bs
unfolding unmask
unmask-unmask key i [] hk hb = refl
unmask-unmask key i (b ∷ bs) hk hb =
    ap₂ ◌∷◌ (xor_twice b (get_or key (i % 4) 0) hb.0 (IsBytes-get_or key (i % 4) hk))
      (unmask-unmask key (i + 1) bs hk hb.1)

length-unmask : (key : List ℕ) (i : ℕ) (bs : List ℕ) → length (unmask key i bs) ≡ length bs
unfolding unmask
length-unmask key i [] = refl
length-unmask key i (b ∷ bs) = ap suc (length-unmask key (i + 1) bs)

-- Eight bytes read back as the number, with no wrap-around on the way.
be_value-big_endian : (n : ℕ) → n < 2 ^ 64 → be_value 0 (big_endian 8 n) ≡ n
unfolding be_value
be_value-big_endian n h = omega arith

read_length-front :
    (len : ℕ) (later : List ℕ) (es : List Arrival)
    → len < 2 ^ 64
    → available es ≡ extended_length len ++ later
    → (rest : List Arrival) × (read_length (length_field len) es ≡ some (len, rest))
      × (available rest ≡ later)
unfolding read_length
read_length-front len later es small e = elim (dec_le len 125) [
  | yes short ↦ (es, ground arith, ground (arith, e))
  | no longer ↦ elim (dec_le len 65535) [
    | yes medium ↦
        let two : extended_length len ≡ big_endian 2 len = ground arith in
        let field : length_field len ≡ 126 = ground arith in
        let r = recv_all-front (big_endian 2 len) later es (e ∙ ap (λ x. x ++ later) two) in
        (
          r.0,
          ap (λ f. read_length f es) field
              ∙ ap
                  (λ (o : Option (List ℕ × List Arrival)).
                    o >>= λ h. some (get_or h.0 0 0 * 256 + get_or h.0 1 0, h.1))
                  r.1
              ∙ ap (λ (v : ℕ). some (v, r.0)) (omega arith),
          r.2,
        )
    | no large ↦
        let eight : extended_length len ≡ big_endian 8 len = ground arith in
        let field : length_field len ≡ 127 = ground arith in
        let r = recv_all-front (big_endian 8 len) later es (e ∙ ap (λ x. x ++ later) eight) in
        (
          r.0,
          ap (λ f. read_length f es) field
              ∙ ap (λ (o : Option (List ℕ × List Arrival)). o >>= λ h. some (be_value 0 h.0, h.1))
                  r.1
              ∙ ap (λ v. some (v, r.0)) (be_value-big_endian len small),
          r.2,
        )
  ]
]

read_payload-front :
    (masked : Bool) (key payload later : List ℕ) (es : List Arrival)
    → length key ≡ 4
    → IsBytes key
    → IsBytes payload
    → available es ≡ (if masked then key ++ unmask key 0 payload else payload) ++ later
    → (rest : List Arrival) × (read_payload true masked (length payload) es ≡ some (payload, rest))
      × (available rest ≡ later)
unfolding read_payload read_mask
read_payload-front false key payload later es four hk hp e =
    let r = recv_all-front payload later es e in (r.0, rw (r.1, ◌>>=◌), r.2)
read_payload-front true key payload later es four hk hp e =
    let body = unmask key 0 payload in
    let k = recv_all-front key (body ++ later) es (e ∙ append_assoc key body later) in
    let p = recv_all-front body later k.0 k.2 in
    let size = length-unmask key 0 payload in
    (
      p.0,
      ap
            (λ n. recv_all n es >>= λ m.
              recv_all (length payload) m.1 >>= λ q. some (unmask m.0 0 q.0, q.1))
            (sym four)
          ∙ ap
              (λ (o : Option (List ℕ × List Arrival)).
                o >>= λ m. recv_all (length payload) m.1 >>= λ q. some (unmask m.0 0 q.0, q.1))
              k.1
          ∙ ap (λ n. recv_all n k.0 >>= λ q. some (unmask key 0 q.0, q.1)) (sym size)
          ∙ ap (λ (o : Option (List ℕ × List Arrival)). o >>= λ q. some (unmask key 0 q.0, q.1)) p.1
          ∙ ap (λ ys. some (ys, p.0)) (unmask-unmask key 0 payload hk hp),
      p.2,
    )

read_rest-front :
    (opcode : ℕ) (masked : Bool) (key payload later : List ℕ) (es : List Arrival)
    → length key ≡ 4
    → IsBytes key
    → IsBytes payload
    → length payload ≤ ws_max_payload
    → available es
      ≡ extended_length (length payload)
        ++ ((if masked then key ++ unmask key 0 payload else payload) ++ later)
    → (rest : List Arrival) × (read_rest true opcode masked (length_field (length payload)) es
        ≡ some (opcode, payload, rest))
      × (available rest ≡ later)
unfolding read_rest
read_rest-front opcode masked key payload later es four hk hp small e =
    let l = read_length-front (length payload) _ es (omega arith) e in
    let p = read_payload-front masked key payload later l.0 four hk hp l.2 in
    (p.0, rw (l.1, ◌>>=◌, le→ltb ws_max_payload (length payload) small, p.1), p.2)

mask_bit :
    (masked : Bool) (n : ℕ) → n < 128 → (((if masked then 128 else 0) + n) / 128 % 2 == 1) ≡ masked
mask_bit true n h = ground arith
mask_bit false n h = ground arith

-- A frame of RFC 6455, masked or not, with a payload of at most 1 MiB is received as its opcode and
-- its unmasked payload, however the stream is cut up, and what follows it is left for the next call.
pub ws_recv_frame-frame :
    (opcode : ℕ) (masked : Bool) (key payload later : List ℕ) (es : List Arrival)
    → opcode < 16
    → length key ≡ 4
    → IsBytes key
    → IsBytes payload
    → length payload ≤ ws_max_payload
    → available es ≡ frame opcode masked key payload ++ later
    → (rest : List Arrival) × (ws_recv_frame true es ≡ some (opcode, payload, rest))
      × (available rest ≡ later)
unfolding ws_recv_frame
ws_recv_frame-frame opcode masked key payload later es op four hk hp small e =
    let len = length payload in
    let h0 : ℕ = 128 + opcode in
    let h1 : ℕ = (if masked then 128 else 0) + length_field len in
    let body = if masked then key ++ unmask key 0 payload else payload in
    let h =
      recv_all-front (h0 ∷ h1 ∷ []) (extended_length len ++ (body ++ later)) es
        (e ∙ ap (λ x. h0 ∷ h1 ∷ x) (append_assoc (extended_length len) body later)) in
    let r = read_rest-front opcode masked key payload later h.0 four hk hp small h.2 in
    let field : length_field len < 128 = ground arith in
    (
      r.0,
      rw (h.1, ◌>>=◌)
          (ap (λ n. read_rest true n (h1 / 128 % 2 == 1) (h1 % 128) h.0) (omega arith)
            ∙ ap (λ b. read_rest true opcode b (h1 % 128) h.0)
                (mask_bit masked (length_field len) field)
            ∙ ap (λ n. read_rest true opcode masked n h.0) (ground arith)
            ∙ r.1),
      r.2,
    )

-- A length above 1 MiB is refused, before anything is allocated or read for it.
pub ws_recv_frame-too_long :
    (room : Bool) (opcode bit len : ℕ) (later : List ℕ) (es : List Arrival)
    → ws_max_payload < len
    → len < 2 ^ 64
    → available es ≡ (128 + opcode) ∷ (bit + length_field len) ∷ (extended_length len ++ later)
    → (bit ≡ 0) ⊎ (bit ≡ 128)
    → ws_recv_frame room es ≡ none
unfolding ws_recv_frame read_rest
ws_recv_frame-too_long room opcode bit len later es large small e flag =
    let h =
      recv_all-front ((128 + opcode) ∷ (bit + length_field len) ∷ []) (extended_length len ++ later)
        es e in
    let l = read_length-front len later h.0 small h.2 in
    let field : length_field len < 128 = ground arith in
    let bits : (bit + length_field len) % 128 ≡ length_field len = omega arith in
    rw (h.1, ◌>>=◌, bits, l.1, lt→ltb ws_max_payload len large)
