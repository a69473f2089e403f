-- ===== src/Ws/Frame.antt =====
-- WebSocket framing of src/core/ws_server.c: ws_send_text, ws_send_control and ws_recv_frame. A byte
-- is a number below 256; the answer of malloc is an argument.
pub mod RoundTrip
pub mod Sending
pub mod Progress
mod Examples
use Prim.Native.Nat.{bit_xor}
use telemetry_platform_testb.Base.{
  ◌>>=◌, ℕ, zero, suc, ◌+◌, ◌*◌, ◌/◌, ◌%◌, ◌^◌, Bool, true, false, not, List, [], ◌∷◌, ◌++◌, Option,
  none, some, length, get_or, take, ltb, leb, ◌==◌, if◌then◌else◌,
}
use telemetry_platform_testb.Ws.Socket.{Arrival, recv_all, Sent, send_all}

-- WS_MAX_PAYLOAD
abbrev pub ws_max_payload : ℕ
ws_max_payload = 1024 * 1024

-- The bytes of hdr for a text of `len` bytes.
unfoldable pub text_header : ℕ → List ℕ
text_header len =
    if leb len 125
    then 0x81 ∷ len % 256 ∷ []
    else if leb len 65535
    then 0x81 ∷ 126 ∷ len / 2 ^ 8 % 256 ∷ len % 256 ∷ []
    else 0x81
      ∷ 127
      ∷ len / 2 ^ 56 % 256
      ∷ len / 2 ^ 48 % 256
      ∷ len / 2 ^ 40 % 256
      ∷ len / 2 ^ 32 % 256
      ∷ len / 2 ^ 24 % 256
      ∷ len / 2 ^ 16 % 256
      ∷ len / 2 ^ 8 % 256
      ∷ len % 256
      ∷ []

-- `send_all(header) != 0 → -1`, then the payload: what goes out, and whether all of it did.
unfoldable pub send_both : List ℕ → List ℕ → List Sent → List ℕ × Bool × List Sent
send_both hdr payload ws =
    let first = send_all hdr ws in
    let second = send_all payload first.2 in
    if first.1 then (first.0 ++ second.0, second.1, second.2) else first

unfoldable pub ws_send_text : List ℕ → List Sent → List ℕ × Bool × List Sent
ws_send_text msg ws = send_both (text_header (length msg)) msg ws

-- A control frame carries at most 125 bytes; a payload that is NULL is the empty list.
pub ws_send_control : ℕ → List ℕ → List Sent → List ℕ × Bool × List Sent
unfolding send_both
ws_send_control opcode payload ws =
    let p = take 125 payload in send_both ((128 + opcode % 16) ∷ length p % 128 ∷ []) p ws

-- `len = (len << 8) | ext[i]` on uint64_t.
pub be_value : ℕ → List ℕ → ℕ
be_value acc [] = acc
be_value acc (b ∷ bs) = be_value ((acc * 256 + b) % 2 ^ 64) bs

-- The length and what is left to arrive after the extended length.
pub read_length : ℕ → List Arrival → Option (ℕ × List Arrival)
unfolding be_value
read_length len es =
    if len == 126
    then (recv_all 2 es >>= λ r. some (get_or r.0 0 0 * 256 + get_or r.0 1 0, r.1))
    else if len == 127
    then (recv_all 8 es >>= λ r. some (be_value 0 r.0, r.1))
    else some (len, es)

-- `payload[i] ^= mask[i % 4]`, from index `i`.
unfoldable pub unmask : List ℕ → ℕ → List ℕ → List ℕ
unmask mask i [] = []
unmask mask i (b ∷ bs) = bit_xor b (get_or mask (i % 4) 0) ∷ unmask mask (i + 1) bs

pub read_mask : Bool → List Arrival → Option (List ℕ × List Arrival)
read_mask masked es = if masked then recv_all 4 es else some (0 ∷ 0 ∷ 0 ∷ 0 ∷ [], es)

-- What is read behind the length: the mask and the payload.
pub read_payload : Bool → Bool → ℕ → List Arrival → Option (List ℕ × List Arrival)
unfolding unmask read_mask
read_payload room masked len es = read_mask masked es >>= λ m.
    if not room
    then none
    else recv_all len m.1 >>= λ p. some ((if masked then unmask m.0 0 p.0 else p.0), p.1)

-- ws_recv_frame behind the first two bytes, whose fields are the opcode, the mask bit and the 7-bit
-- length.
pub read_rest : Bool → ℕ → Bool → ℕ → List Arrival → Option (ℕ × List ℕ × List Arrival)
read_rest room opcode masked field es = read_length field es >>= λ l.
    if ltb ws_max_payload l.0
    then none
    else read_payload room masked l.0 l.1 >>= λ p. some (opcode, p.0, p.1)

-- ws_recv_frame: opcode, payload and what is left to arrive, or none for -1. `room` tells whether
-- malloc has room for the payload. FIN is ignored.
pub ws_recv_frame : Bool → List Arrival → Option (ℕ × List ℕ × List Arrival)
unfolding read_rest
ws_recv_frame room es = recv_all 2 es >>= λ h.
    let h0 = get_or h.0 0 0 in
    let h1 = get_or h.0 1 0 in read_rest room (h0 % 16) (h1 / 128 % 2 == 1) (h1 % 128) h.1
