-- ===== src/Ws/Session.antt =====
-- What client_thread of src/core/ws_server.c reads from its client and writes to it: the handshake, the
-- status, and the loop on frames. The reader of the database is an argument: none when the server has no
-- database, and else the answer of db_reader_history_last_json, none for an error.
pub mod Replies
pub mod Loop
pub mod Whole
mod Examples
use telemetry_platform_testb.Base.{
  ℕ, zero, suc, ◌+◌, Bool, true, false, not, List, [], ◌∷◌, ◌++◌, Option, none, some, length, ltb,
  ◌==◌, codes, ◌>>=◌, if◌then◌else◌,
}
use telemetry_platform_testb.Base.Int.{ℤ, pos}
use telemetry_platform_testb.Types.{CString}
use telemetry_platform_testb.Ws.Socket.{Arrival, Sent}
use telemetry_platform_testb.Ws.Broadcast.{Server}
use telemetry_platform_testb.Ws.Frame.{ws_send_text, ws_send_control, ws_recv_frame}
use telemetry_platform_testb.Ws.Request.{c_string, ws_handshake, json_find_int, is_history_request}

-- The text of `status`, and whether it fits the 256 bytes.
pub status : CString → CString
status exp_tag =
    codes "{\"type\":\"status\",\"status\":\"online\",\"exp_tag\":\"" ++ (exp_tag ++ codes "\"}")

pub send_status : CString → List Sent → List ℕ × Bool × List Sent
unfolding status
send_status exp_tag ws =
    let sent = ws_send_text (status exp_tag) ws in
    if ltb (length (status exp_tag)) 256 then sent else ([], true, ws)

-- start_mono_ns is set once, by the first client.
pub anchored : ℕ → Server → Server
anchored now srv =
    if srv.experiment_anchor_set
    then srv
    else record srv { start_mono_ns = now; experiment_anchor_set = true }

module _ (db : Option (ℤ → Option CString)) where
  -- The reply to a history request.
  pub history_reply : CString → CString
  history_reply txt = elim db [
    | none ↦ codes "{\"type\":\"error\",\"message\":\"db_not_available\"}"
    | some history_last ↦ elim (history_last (json_find_int txt (codes "\"last\"") (pos 300))) [
      | none ↦ codes "{\"type\":\"error\",\"message\":\"history_query_failed\"}"
      | some json ↦ json
    ]
  ]

  -- One frame: what goes out, whether the loop goes on, and the answers of send that are left. Whether
  -- a reply went out is not looked at.
  pub handle_frame : ℕ → List ℕ → List Sent → List ℕ × Bool × List Sent
  unfolding history_reply
  handle_frame opcode payload ws =
      let close = ws_send_control 8 [] ws in
      let pong = ws_send_control 10 payload ws in
      let txt = c_string payload in
      let reply = ws_send_text (history_reply txt) ws in
      if opcode == 8
      then (close.0, false, close.2)
      else if opcode == 9
      then (pong.0, true, pong.2)
      else if opcode == 10
      then ([], true, ws)
      else if not (opcode == 1)
      then ([], true, ws)
      else if is_history_request txt
      then (reply.0, true, reply.2)
      else ([], true, ws)

  -- The loop. `going` is `s->running && c->alive` at each turn, `room` what malloc answers; none when
  -- the fuel is out.
  pub serve : (ℕ → Bool) → (ℕ → Bool) → ℕ → ℕ → List Arrival → List Sent → Option (List ℕ)
  unfolding handle_frame
  serve going room zero i es ws = none
  serve going room (suc fuel) i es ws =
      let turn : Option (List ℕ) = elim (ws_recv_frame (room i) es) [
        | none ↦ some []
        | some (opcode, payload, rest) ↦
            let sent = handle_frame opcode payload ws in
            let later = serve going room fuel (suc i) rest sent.2 in
            if sent.1 then (later >>= λ out. some (sent.0 ++ out)) else some sent.0
      ] in
      if going i then turn else some []

  -- Everything that goes out before close(), and the server, whose experiment the first session to pass
  -- the handshake anchors. The bytes that have arrived bound the frames.
  pub session :
      (ℕ → Bool)
      → (ℕ → Bool)
      → CString
      → ℕ
      → ℕ
      → Server
      → List Arrival
      → List Sent
      → Option (List ℕ × Server)
  unfolding send_status serve anchored
  session going room exp_tag fuel now srv es ws =
      let shake = ws_handshake es ws in
      let online = send_status exp_tag shake.2 in
      let frames = serve going room fuel 0 shake.3 online.2 in
      if shake.1
      then (frames >>= λ out. some (shake.0 ++ (online.0 ++ out), anchored now srv))
      else some (shake.0, srv)
