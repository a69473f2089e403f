-- ===== src/Ws/Frame/Sending.antt =====
-- The frames that ws_send_text and ws_send_control of src/core/ws_server.c write.
use telemetry_platform_testb.Base.{
  ℕ, ◌+◌, ◌%◌, ◌^◌, ◌≤◌, ◌<◌, ◌≡◌, refl, ap, ap₂, ◌∙◌, inl, inr, Bool-cases, true, false, List, [],
  ◌∷◌, ◌++◌, some, arith, length, take, length-take_le, le→leb, IsBytes,
}
use telemetry_platform_testb.Ws.Socket.{Arrival, Sent, send_all}
use telemetry_platform_testb.Ws.Socket.Delivery.{available, send_all-whole}
use telemetry_platform_testb.Ws.Frame.RoundTrip.{
  length_field, extended_length, frame, ws_recv_frame-frame,
}
use telemetry_platform_testb.Ws.Frame.{
  ws_max_payload, text_header, send_both, ws_send_text, ws_send_control, ws_recv_frame,
}

-- The header of an unmasked frame.
abbrev pub header : ℕ → ℕ → List ℕ
header opcode len = (128 + opcode) ∷ length_field len ∷ extended_length len

pub ws_send_text-header :
    (msg : List ℕ) (ws : List Sent)
    → length msg < 2 ^ 64
    → ws_send_text msg ws ≡ send_both (header 1 (length msg)) msg ws
unfolding ws_send_text text_header
ws_send_text-header msg ws h = ap (λ hdr. send_both hdr msg ws) (ground arith)

header_small :
    (opcode n : ℕ) → opcode < 16 → n ≤ 125 → (128 + opcode % 16) ∷ n % 128 ∷ [] ≡ header opcode n
header_small opcode n op small =
    rw (le→leb n 125 small) (ap₂ (λ x y. (128 + x) ∷ y ∷ []) (omega arith) (omega arith))

pub ws_send_control-header :
    (opcode : ℕ) (payload : List ℕ) (ws : List Sent)
    → opcode < 16
    → ws_send_control opcode payload ws
      ≡ send_both (header opcode (length (take 125 payload))) (take 125 payload) ws
unfolding ws_send_control
ws_send_control-header opcode payload ws h =
    let p = take 125 payload in
    ap (λ hdr. send_both hdr p ws) (header_small opcode (length p) h (length-take_le 125 payload))

-- The header that ws_send_text writes is that of an unmasked text frame.
text_header-frame :
    (msg : List ℕ) → length msg < 2 ^ 64 → text_header (length msg) ++ msg ≡ frame 1 false [] msg
unfolding text_header
text_header-frame msg h = ground arith

pub send_both-whole :
    (hdr payload : List ℕ) (ws : List Sent)
    → (send_both hdr payload ws).1 ≡ true
    → (send_both hdr payload ws).0 ≡ hdr ++ payload
unfolding send_both
send_both-whole hdr payload ws ok = elim (Bool-cases (send_all hdr ws).1) [
  | inl sent ↦
      let rest : (send_all payload (send_all hdr ws).2).1 ≡ true = ground arith in
      rw sent (
        ap₂ (λ x y. x ++ y) (send_all-whole hdr ws sent)
          (send_all-whole payload (send_all hdr ws).2 rest))
  | inr stopped ↦ absurd (ground arith)
]

-- When ws_send_text succeeds, what went out is one unmasked text frame that carries the message.
pub ws_send_text-frame :
    (msg : List ℕ) (ws : List Sent)
    → length msg < 2 ^ 64
    → (ws_send_text msg ws).1 ≡ true
    → (ws_send_text msg ws).0 ≡ frame 1 false [] msg
unfolding ws_send_text
ws_send_text-frame msg ws small ok =
    send_both-whole (text_header (length msg)) msg ws ok ∙ text_header-frame msg small

-- A text of at most 1 MiB that the server's sender delivers whole is what its receiver reads.
pub ws_send_text-recv :
    (msg : List ℕ) (ws : List Sent) (later : List ℕ) (es : List Arrival)
    → IsBytes msg
    → length msg ≤ ws_max_payload
    → (ws_send_text msg ws).1 ≡ true
    → available es ≡ (ws_send_text msg ws).0 ++ later
    → (rest : List Arrival) × (ws_recv_frame true es ≡ some (1, msg, rest))
      × (available rest ≡ later)
ws_send_text-recv msg ws later es bytes small ok e =
    ws_recv_frame-frame 1 false (0 ∷ 0 ∷ 0 ∷ 0 ∷ []) msg later es (omega arith) refl (omega arith)
      bytes small (e ∙ ap (λ x. x ++ later) (ws_send_text-frame msg ws (omega arith) ok))
