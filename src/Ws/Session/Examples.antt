-- ===== src/Ws/Session/Examples.antt =====
-- A session of src/core/ws_server.c: the handshake of RFC 6455, section 1.3, a ping, a history request
-- and a close.
use telemetry_platform_testb.Base.{
  if◌then◌else◌, ℕ, ◌≡◌, refl, arith, true, false, List, [], ◌∷◌, ◌++◌, none, some, codes,
  same_string,
}
use telemetry_platform_testb.Types.{CString}
use telemetry_platform_testb.Ws.Socket.{Arrival, chunk, Sent, took, send_all}
use telemetry_platform_testb.Ws.Sha1.{sha1_init, sha1_final, sha1_transform}
use telemetry_platform_testb.Ws.Base64.{base64_encode}
use telemetry_platform_testb.Ws.Broadcast.{Server}
use telemetry_platform_testb.Env.{initial_server}
use telemetry_platform_testb.Ws.Frame.{ws_send_text, send_both, text_header, unmask}
use telemetry_platform_testb.Ws.Frame.RoundTrip.{frame}
use telemetry_platform_testb.Ws.Request.{ws_handshake}
use telemetry_platform_testb.Ws.Session.{status, handle_frame, anchored, session}
use telemetry_platform_testb.Ws.Session.Replies.{reply_to, reply_bytes, handle_frame-reply_to}
use telemetry_platform_testb.Ws.Session.Loop.{ClientFrame, wire, replies}
use telemetry_platform_testb.Ws.Session.Whole.{online, session-returns, session-frames}

abbrev arrival : List ℕ → List Arrival → List Arrival
arrival [] es = es
arrival (b ∷ bs) es = chunk b bs ∷ es

abbrev request : CString
request =
    codes "GET /chat HTTP/1.1\r\nHost: a\r\nSec-WebSocket-Key: dGhlIHNhbXBsZSBub25jZQ==\r\n\r\n"

abbrev no_key : List ℕ
no_key = 0 ∷ 0 ∷ 0 ∷ 0 ∷ []

-- A ping, a history request and a close.
abbrev frames : List ClientFrame
frames =
    record { opcode = 9; key = 1 ∷ 2 ∷ 3 ∷ 4 ∷ []; payload = codes "hi" }
    ∷ record { opcode = 1; key = no_key; payload = codes "{\"type\":\"history\"}" }
    ∷ record { opcode = 8; key = no_key; payload = [] }
    ∷ []

abbrev stream : List Arrival
stream = arrival request (arrival (wire frames) [])

-- Each call of send takes everything.
abbrev answers : List Sent
answers = took 999 ∷ took 999 ∷ took 999 ∷ took 999 ∷ took 999 ∷ took 999 ∷ took 999 ∷ took 999 ∷ []

abbrev tag : CString
tag = codes "default"

abbrev fresh : Server
fresh = initial_server []

session-frames_example :
    (after : Server) × (session none (λ n. true) (λ n. true) tag 4 77 fresh stream answers
      ≡ some (
        (ws_handshake stream answers).0
            ++ (frame 1 false [] (online tag)
                ++ replies none frames
                    (ws_send_text (online tag) (ws_handshake stream answers).2).2),
        after,
      ))
    × (after.experiment_anchor_set ≡ true)
    × (after.start_mono_ns ≡ (if fresh.experiment_anchor_set then fresh.start_mono_ns else 77))
    × ((later : ℕ) → anchored later after ≡ after)
unfolding ws_handshake sha1_init sha1_final sha1_transform base64_encode same_string ws_send_text
    send_all status send_both text_header unmask
session-frames_example =
    session-frames none (λ n. true) (λ n. true) tag 77 fresh frames 4 stream answers (omega arith)
      (λ n. refl) (λ n. refl) refl refl (omega arith) refl (omega arith)

session-returns_example :
    (end : List ℕ × Server) × (session none (λ n. true) (λ n. true) tag 100 77 fresh stream answers
      ≡ some end)
unfolding ws_handshake sha1_init sha1_final sha1_transform base64_encode same_string send_all unmask
session-returns_example =
    session-returns none (λ n. true) (λ n. true) tag 77 fresh 100 stream answers (omega arith)

handle_frame-reply_to_example :
    ((handle_frame none 9 (codes "hi") answers).0 ≡ reply_bytes (reply_to none 9 (codes "hi")))
    × ((handle_frame none 9 (codes "hi") answers).1 ≡ true)
unfolding send_both send_all
handle_frame-reply_to_example = handle_frame-reply_to none 9 (codes "hi") answers refl refl
