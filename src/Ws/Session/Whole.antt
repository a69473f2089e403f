-- ===== src/Ws/Session/Whole.antt =====
-- A whole session of client_thread in src/core/ws_server.c, from the handshake on.
use telemetry_platform_testb.Base.{
  if◌then◌else◌, ℕ, ◌+◌, ◌≤◌, ◌<◌, ◌≡◌, refl, ap, inl, inr, arith, Bool, true, false, List, [],
  ◌++◌, codes, lt→ltb, Option, some, length, length-append, ◌>>=◌, Bool-cases,
}
use telemetry_platform_testb.Base.Int.{ℤ}
use telemetry_platform_testb.Types.{CString}
use telemetry_platform_testb.Ws.Socket.{Arrival, Sent}
use telemetry_platform_testb.Ws.Socket.Delivery.{available}
use telemetry_platform_testb.Ws.Broadcast.{Server}
use telemetry_platform_testb.Ws.Frame.{ws_send_text}
use telemetry_platform_testb.Ws.Frame.RoundTrip.{frame}
use telemetry_platform_testb.Ws.Frame.Sending.{ws_send_text-frame}
use telemetry_platform_testb.Ws.Request.{ws_handshake}
use telemetry_platform_testb.Ws.Session.{status, send_status, anchored, session}
use telemetry_platform_testb.Ws.Session.Loop.{
  ClientFrame, AreClientFrames, wire, replies, serve-returns, serve-frames,
}

-- The text that tells a client that it is connected.
abbrev pub online : CString → CString
online tag =
    codes "{\"type\":\"status\",\"status\":\"online\",\"exp_tag\":\"" ++ (tag ++ codes "\"}")

status_length : (tag : CString) → length (status tag) ≡ length tag + 48
unfolding status
status_length tag =
    let front = codes "{\"type\":\"status\",\"status\":\"online\",\"exp_tag\":\"" in
    omega (arith, length-append front (tag ++ codes "\"}"), length-append tag (codes "\"}"))

-- The tag fits its 64 bytes, so that the status fits the buffer.
send_status-sends :
    (tag : CString) (ws : List Sent)
    → length tag ≤ 63
    → send_status tag ws ≡ ws_send_text (status tag) ws
unfolding send_status
send_status-sends tag ws h =
    rw (lt→ltb (length (status tag)) 256 (omega (arith, status_length tag))) refl

anchored-set : (now : ℕ) (srv : Server) → (anchored now srv).experiment_anchor_set ≡ true
unfolding anchored
anchored-set now srv = elim (Bool-cases srv.experiment_anchor_set) [
  | inl set ↦ rw set refl
  | inr fresh ↦ rw fresh refl
]

anchored-start :
    (now : ℕ) (srv : Server)
    → (anchored now srv).start_mono_ns
      ≡ (if srv.experiment_anchor_set then srv.start_mono_ns else now)
unfolding anchored
anchored-start now srv = ground arith

anchored-again :
    (first now : ℕ) (srv : Server) → anchored now (anchored first srv) ≡ anchored first srv
unfolding anchored
anchored-again first now srv = elim (Bool-cases srv.experiment_anchor_set) [
  | inl set ↦ rw set refl
  | inr fresh ↦ rw fresh refl
]

module _ (db : Option (ℤ → Option CString)) (going room : ℕ → Bool) (tag : CString) (now : ℕ)
    (srv : Server) where
  -- A session ends, with more fuel than bytes that are to arrive behind the handshake.
  pub session-returns :
      (fuel : ℕ) (es : List Arrival) (ws : List Sent)
      → length (available (ws_handshake es ws).3) < fuel
      → (end : List ℕ × Server) × (session db going room tag fuel now srv es ws ≡ some end)
  unfolding session
  session-returns fuel es ws h =
      let shake = ws_handshake es ws in
      let online = send_status tag shake.2 in
      let frames = serve-returns db going room fuel 0 shake.3 online.2 h in
      elim (Bool-cases shake.1) [
        | inl ok ↦ ((shake.0 ++ (online.0 ++ frames.0), anchored now srv), rw (ok, frames.1) refl)
        | inr failed ↦ ((shake.0, srv), rw failed refl)
      ]

  -- After a handshake, when send takes the whole status: the client gets the response of the handshake,
  -- then the status as one text frame, and then, in order, what the server writes for each of its masked
  -- frames up to a close, however the stream is cut up; and the experiment is anchored: its clock starts at
  -- the time of this session, unless an earlier one started it, and a later session does not move it.
  pub session-frames :
      (fs : List ClientFrame) (fuel : ℕ) (es : List Arrival) (ws : List Sent)
      → length tag ≤ 63
      → ((n : ℕ) → going n ≡ true)
      → ((n : ℕ) → room n ≡ true)
      → (ws_handshake es ws).1 ≡ true
      → (ws_send_text (online tag) (ws_handshake es ws).2).1 ≡ true
      → AreClientFrames fs
      → available (ws_handshake es ws).3 ≡ wire fs
      → length fs < fuel
      → (after : Server) × (session db going room tag fuel now srv es ws
          ≡ some (
            (ws_handshake es ws).0
                ++ (frame 1 false [] (online tag)
                    ++ replies db fs (ws_send_text (online tag) (ws_handshake es ws).2).2),
            after,
          ))
        × (after.experiment_anchor_set ≡ true)
        × (after.start_mono_ns ≡ (if srv.experiment_anchor_set then srv.start_mono_ns else now))
        × ((later : ℕ) → anchored later after ≡ after)
  unfolding session status
  session-frames fs fuel es ws small go roomy shaken sent ok e h =
      let shake = ws_handshake es ws in
      let greeting = ws_send_text (status tag) shake.2 in
      let loop = serve-frames db going room fs fuel 0 shake.3 greeting.2 go roomy ok e h in
      let text =
        ws_send_text-frame (status tag) shake.2 (omega (arith, small, status_length tag)) sent in
      (
        anchored now srv,
        rw (shaken, send_status-sends tag shake.2 small, loop, ◌>>=◌)
            (ap (λ x. some (shake.0 ++ (x ++ replies db fs greeting.2), anchored now srv)) text),
        anchored-set now srv,
        anchored-start now srv,
        (λ later. anchored-again now later srv),
      )
