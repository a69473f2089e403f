-- ===== src/Ws/Frame/Examples.antt =====
-- The examples of RFC 6455, section 5.7: "Hello", masked and unmasked.
use telemetry_platform_testb.Base.{ℕ, ◌≡◌, refl, true, List, [], ◌∷◌, some, arith}
use telemetry_platform_testb.Ws.Socket.{Arrival, chunk, recv_all, Sent, took}
use telemetry_platform_testb.Ws.Socket.Delivery.{available}
use telemetry_platform_testb.Ws.Frame.{unmask, read_length, read_payload, ws_recv_frame}
use telemetry_platform_testb.Ws.Frame.RoundTrip.{ws_recv_frame-frame}

abbrev hello : List ℕ
hello = 0x48 ∷ 0x65 ∷ 0x6c ∷ 0x6c ∷ 0x6f ∷ []

abbrev key : List ℕ
key = 0x37 ∷ 0xfa ∷ 0x21 ∷ 0x3d ∷ []

abbrev masked_hello : List Arrival
masked_hello =
    chunk 0x81 (0x85 ∷ 0x37 ∷ 0xfa ∷ [])
    ∷ chunk 0x21 (0x3d ∷ 0x7f ∷ 0x9f ∷ 0x4d ∷ 0x51 ∷ 0x58 ∷ 0x8a ∷ [])
    ∷ []

receives_hello : ws_recv_frame true masked_hello ≡ some (1, hello, chunk 0x8a [] ∷ [])
unfolding ws_recv_frame recv_all read_length read_payload
receives_hello = refl

ws_recv_frame-frame_example :
    (rest : List Arrival) × (ws_recv_frame true masked_hello ≡ some (1, hello, rest))
    × (available rest ≡ 0x8a ∷ [])
unfolding unmask
ws_recv_frame-frame_example =
    ws_recv_frame-frame 1 true key hello (0x8a ∷ []) masked_hello (omega arith) refl (omega arith)
      (omega arith) (omega arith) refl

abbrev answers : List Sent
answers = took 0 ∷ took 0 ∷ took 9 ∷ []
