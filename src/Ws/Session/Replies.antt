-- ===== src/Ws/Session/Replies.antt =====
-- What handle_frame answers to each kind of frame, in RFC 6455, sections 5.5 and 5.6.
use telemetry_platform_testb.Base.{
  ℕ, ◌+◌, ◌^◌, ltb→lt, ◌<◌, ◌≡◌, refl, ap, sym, ◌∙◌, Bool, true, false, not, List, [], ◌∷◌, ◌++◌,
  Option, none, some, length, take, ltb, ◌==◌, arith, if◌then◌else◌, inl, inr, Bool-cases, subst,
  ==_iff,
}
use telemetry_platform_testb.Base.Int.{ℤ}
use telemetry_platform_testb.Types.{CString}
use telemetry_platform_testb.Ws.Socket.{Sent}
use telemetry_platform_testb.Ws.Frame.{send_both, ws_send_text, ws_send_control}
use telemetry_platform_testb.Ws.Frame.RoundTrip.{frame, extended_length}
use telemetry_platform_testb.Ws.Frame.Sending.{
  header, send_both-whole, ws_send_text-header, ws_send_control-header,
}
use telemetry_platform_testb.Ws.Request.{c_string, is_history_request}
use telemetry_platform_testb.Ws.Session.{history_reply, handle_frame}

-- Opcode and payload of the frame that answers a frame, if one does.
abbrev pub reply_to : Option (ℤ → Option CString) → ℕ → List ℕ → Option (ℕ × List ℕ)
reply_to db opcode payload =
    if opcode == 8
    then some (8, [])
    else if opcode == 9
    then some (10, take 125 payload)
    else if opcode == 1
    then (if is_history_request (c_string payload)
        then some (1, history_reply db (c_string payload))
        else none)
    else none

-- Does send take the whole reply?
abbrev pub goes_out : Option (ℕ × List ℕ) → List Sent → Bool
goes_out none ws = true
goes_out (some (opcode, payload)) ws = (send_both (header opcode (length payload)) payload ws).1

abbrev pub reply_bytes : Option (ℕ × List ℕ) → List ℕ
reply_bytes none = []
reply_bytes (some (opcode, payload)) = frame opcode false [] payload

abbrev pub is_small : Option (ℕ × List ℕ) → Bool
is_small none = true
is_small (some (opcode, payload)) = ltb (length payload) (2 ^ 64)

sends_whole :
    (sent : List ℕ × Bool × List Sent) (opcode : ℕ) (p : List ℕ) (ws : List Sent)
    → sent ≡ send_both (header opcode (length p)) p ws
    → (send_both (header opcode (length p)) p ws).1 ≡ true
    → sent.0 ≡ frame opcode false [] p
sends_whole sent opcode p ws e ok =
    ap (λ s. s.0) e
    ∙ send_both-whole (header opcode (length p)) p ws ok
    ∙ ap (λ n. (128 + opcode) ∷ n ∷ (extended_length (length p) ++ p)) (omega arith)

module _ (db : Option (ℤ → Option CString)) (payload : List ℕ) (ws : List Sent) where
  Replies : ℕ → Type 0
  Replies opcode =
      is_small (reply_to db opcode payload) ≡ true
      → goes_out (reply_to db opcode payload) ws ≡ true
      → ((handle_frame db opcode payload ws).0 ≡ reply_bytes (reply_to db opcode payload))
        × ((handle_frame db opcode payload ws).1 ≡ not (opcode == 8))

  close-Replies : Replies 8
  unfolding Replies handle_frame
  close-Replies small out = (
    sends_whole (ws_send_control 8 [] ws) 8 [] ws (ws_send_control-header 8 [] ws (omega arith))
        out,
    refl,
  )

  ping-Replies : Replies 9
  unfolding Replies handle_frame
  ping-Replies small out = (
    sends_whole (ws_send_control 10 payload ws) 10 (take 125 payload) ws
        (ws_send_control-header 10 payload ws (omega arith)) out,
    refl,
  )

  pong-Replies : Replies 10
  unfolding Replies handle_frame
  pong-Replies small out = (refl, refl)

  text-Replies : Replies 1
  unfolding Replies handle_frame
  text-Replies small out = elim (Bool-cases (is_history_request (c_string payload))) [
    | inl asks ↦
        let msg = history_reply db (c_string payload) in
        let asked : reply_to db 1 payload ≡ some (1, msg) = rw asks refl in
        let fits : length msg < 2 ^ 64 =
          ltb→lt (length msg) (2 ^ 64) (sym (ap is_small asked) ∙ small) in
        (
          rw asks (
              sends_whole (ws_send_text msg ws) 1 msg ws (ws_send_text-header msg ws fits)
                (sym (ap (λ r. goes_out r ws) asked) ∙ out)),
          rw asks refl,
        )
    | inr not_asked ↦ rw not_asked (refl, refl)
  ]

  other-Replies :
      (opcode : ℕ)
      → (opcode == 8) ≡ false
      → (opcode == 9) ≡ false
      → (opcode == 1) ≡ false
      → Replies opcode
  unfolding Replies handle_frame
  other-Replies opcode n8 n9 n1 small out = elim (Bool-cases (opcode == 10)) [
    | inl is_10 ↦ (rw (n8, n9, n1, is_10) refl, rw (n8, n9, n1, is_10) refl)
    | inr n10 ↦ (rw (n8, n9, n1, n10) refl, rw (n8, n9, n1, n10) refl)
  ]

-- For every opcode and payload: the loop goes on unless the frame is a close, and when send takes the
-- whole reply, exactly the frame goes out that the kind of frame asks for: a close, a pong with the
-- payload of the ping, the reply to a history request, or nothing.
pub handle_frame-reply_to :
    (db : Option (ℤ → Option CString)) (opcode : ℕ) (payload : List ℕ) (ws : List Sent)
    → is_small (reply_to db opcode payload) ≡ true
    → goes_out (reply_to db opcode payload) ws ≡ true
    → ((handle_frame db opcode payload ws).0 ≡ reply_bytes (reply_to db opcode payload))
      × ((handle_frame db opcode payload ws).1 ≡ not (opcode == 8))
unfolding Replies
handle_frame-reply_to db opcode payload ws =
    let at : (n : ℕ) → Replies db payload ws n → opcode ≡ n → Replies db payload ws opcode =
      λ n r e. subst (Replies db payload ws) (sym e) r in
    elim (Bool-cases (opcode == 8)) [
      | inl e ↦ at 8 (close-Replies db payload ws) ((==_iff opcode 8).0 e)
      | inr n8 ↦ elim (Bool-cases (opcode == 9)) [
        | inl e ↦ at 9 (ping-Replies db payload ws) ((==_iff opcode 9).0 e)
        | inr n9 ↦ elim (Bool-cases (opcode == 1)) [
          | inl e ↦ at 1 (text-Replies db payload ws) ((==_iff opcode 1).0 e)
          | inr n1 ↦ other-Replies db payload ws opcode n8 n9 n1
        ]
      ]
    ]
