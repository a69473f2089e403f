-- ===== src/Ws/Session/Loop.antt =====
-- The loop of client_thread in src/core/ws_server.c, on whatever arrives and on a stream of frames.
use telemetry_platform_testb.Base.{
  ℕ, zero, suc, ◌≤◌, ◌<◌, ◌≡◌, refl, inl, inr, arith, Bool, true, List, [], ◌∷◌, ◌++◌, Option, some,
  length, Option-cases, Bool-cases, IsBytes, if◌then◌else◌,
}
use telemetry_platform_testb.Base.Int.{ℤ}
use telemetry_platform_testb.Types.{CString}
use telemetry_platform_testb.Ws.Socket.{Arrival, Sent}
use telemetry_platform_testb.Ws.Socket.Delivery.{available}
use telemetry_platform_testb.Ws.Frame.{ws_max_payload, ws_recv_frame}
use telemetry_platform_testb.Ws.Frame.RoundTrip.{frame, ws_recv_frame-frame}
use telemetry_platform_testb.Ws.Frame.Progress.{ws_recv_frame-less, ws_recv_frame-empty}
use telemetry_platform_testb.Ws.Session.{handle_frame, serve}

module _ (db : Option (ℤ → Option CString)) (going room : ℕ → Bool) where
  -- With more fuel than bytes that are to arrive, the loop ends, whatever they are.
  pub serve-returns :
      (fuel i : ℕ) (es : List Arrival) (ws : List Sent)
      → length (available es) < fuel
      → (out : List ℕ) × (serve db going room fuel i es ws ≡ some out)
  unfolding serve
  serve-returns zero i es ws h = absurd (omega arith)
  serve-returns (suc fuel) i es ws h = elim (Bool-cases (going i)) [
    | inr stop ↦ ([], rw (serve, stop) refl)
    | inl go ↦ elim (Option-cases (ws_recv_frame (room i) es)) [
      | inl n ↦ ([], rw (serve, go, n) refl)
      | inr (f, e) ↦
          let sent = handle_frame db f.0 f.1 ws in
          let rest =
            serve-returns fuel (suc i) f.2 sent.2
              (omega (arith, h, ws_recv_frame-less (room i) es f e)) in
          elim (Bool-cases sent.1) [
            | inl on ↦ (sent.0 ++ rest.0, rw (serve, go, e, on, rest.1) refl)
            | inr done ↦ (sent.0, rw (serve, go, e, done) refl)
          ]
    ]
  ]

-- A frame of a client: opcode, masking key and payload.
pub record ClientFrame : Type 0 where
  pub opcode : ℕ
  pub key : List ℕ
  pub payload : List ℕ

abbrev pub IsClientFrame : ClientFrame → Type 0
IsClientFrame f =
    (f.opcode < 16)
    × (length f.key ≡ 4)
    × IsBytes f.key
    × IsBytes f.payload
    × (length f.payload ≤ ws_max_payload)

abbrev pub AreClientFrames : List ClientFrame → Type 0
AreClientFrames [] = Unit {0}
AreClientFrames (f ∷ fs) = IsClientFrame f × AreClientFrames fs

abbrev pub wire : List ClientFrame → List ℕ
wire [] = []
wire (f ∷ fs) = frame f.opcode true f.key f.payload ++ wire fs

-- What goes out for each frame in turn, up to the first that ends the loop.
abbrev pub replies : Option (ℤ → Option CString) → List ClientFrame → List Sent → List ℕ
replies db [] ws = []
replies db (f ∷ fs) ws =
    let sent = handle_frame db f.opcode f.payload ws in
    let later = replies db fs sent.2 in if sent.1 then sent.0 ++ later else sent.0

-- On a stream of masked frames, however it is cut up, the loop writes what handle_frame writes for each
-- frame in turn, until a close or the end of the stream.
pub serve-frames :
    (db : Option (ℤ → Option CString)) (going room : ℕ → Bool) (fs : List ClientFrame) (fuel i : ℕ)
    (es : List Arrival) (ws : List Sent)
    → ((n : ℕ) → going n ≡ true)
    → ((n : ℕ) → room n ≡ true)
    → AreClientFrames fs
    → available es ≡ wire fs
    → length fs < fuel
    → serve db going room fuel i es ws ≡ some (replies db fs ws)
unfolding serve
serve-frames db going room fs zero i es ws go roomy ok e h = absurd (omega arith)
serve-frames db going room [] (suc fuel) i es ws go roomy ok e h =
    rw (serve, go i, ws_recv_frame-empty (room i) es e) refl
serve-frames db going room (f ∷ fs) (suc fuel) i es ws go roomy ok e h =
    let this = ok.0 in
    let r =
      ws_recv_frame-frame f.opcode true f.key f.payload (wire fs) es this.0 this.1 this.2 this.3
        this.4 e in
    let sent = handle_frame db f.opcode f.payload ws in
    let rest =
      serve-frames db going room fs fuel (suc i) r.0 sent.2 go roomy ok.1 r.2 (omega arith) in
    elim (Bool-cases sent.1) [
      | inl on ↦ rw (serve, go i, roomy i, r.1, on, rest) refl
      | inr done ↦ rw (serve, go i, roomy i, r.1, done) refl
    ]
