-- ===== src/Ws/Broadcast.antt =====
-- The network impairments and ws_server_broadcast of src/core/ws_server.c. The settings are what
-- env_int_local leaves of them, so none is negative. The monotonic clock, rand() and the answers of
-- send are arguments; a subtraction that the source cuts at 0 is that of ℕ.
pub mod Delivery
pub mod Impairment
mod Examples
use telemetry_platform_testb.Base.{
  ℕ, zero, suc, ◌+◌, ◌-◌, ◌*◌, ◌%◌, ◌^◌, Bool, true, false, not, ◌&&◌, List, [], ◌∷◌, ◌++◌, Option,
  none, some, ltb, leb, ◌==◌, if◌then◌else◌,
}
use telemetry_platform_testb.Ws.Socket.{Sent}
use telemetry_platform_testb.Ws.Frame.{ws_send_text}

-- ws_client_t; `fd` is none for -1.
pub record Client : Type 0 where
  pub fd : Option ℕ
  pub alive : Bool

-- The fields of struct ws_server that a broadcast reads and writes, and the descriptors closed so far.
pub record Server : Type 0 where
  pub clients : List Client
  pub delay_ms : ℕ
  pub jitter_ms : ℕ
  pub drop_pct : ℕ
  pub cut_start_s : ℕ
  pub cut_duration_s : ℕ
  pub reconnect_mode_close : Bool
  pub start_mono_ns : ℕ
  pub experiment_anchor_set : Bool
  pub cut_close_fired : Bool
  pub dropped_msgs : ℕ
  pub delayed_msgs : ℕ
  pub cut_msgs : ℕ
  pub closed_fds : List ℕ

abbrev pub second_ns : ℕ
second_ns = 1000000000

pub impairment_cut_active : Server → ℕ → Bool
impairment_cut_active s now =
    if s.cut_duration_s == 0
    then false
    else if not s.experiment_anchor_set
    then false
    else let elapsed_ns = now - s.start_mono_ns in
      let start_ns = s.cut_start_s * second_ns in
      let end_ns = start_ns + s.cut_duration_s * second_ns in
      leb start_ns elapsed_ns && ltb elapsed_ns end_ns

-- `r` is the value of rand().
pub impairment_should_drop : Server → ℕ → Bool
impairment_should_drop s r = if s.drop_pct == 0 then false else ltb (r % 100) s.drop_pct

pub impairment_delay_for_msg_ms : Server → ℕ → ℕ
impairment_delay_for_msg_ms s r =
    if ltb 0 s.jitter_ms then s.delay_ms + r % (s.jitter_ms * 2 + 1) - s.jitter_ms else s.delay_ms

-- `if(c->fd >= 0) close(c->fd);`
abbrev pub close_fd : Option ℕ → List ℕ → List ℕ
close_fd none closed = closed
close_fd (some fd) closed = fd ∷ closed

-- The loop of ws_close_all_clients, on the clients and the closed descriptors.
pub close_clients : List Client → List ℕ → List Client × List ℕ
close_clients [] closed = ([], closed)
close_clients (c ∷ cs) closed =
    let rest = close_clients cs (close_fd c.fd closed) in
    (record { fd = none; alive = false } ∷ rest.0, rest.1)

pub ws_close_all_clients : Server → Server
ws_close_all_clients s =
    let r = close_clients s.clients s.closed_fds in record s { clients = r.0; closed_fds = r.1 }

-- What one call of ws_send_text put on a descriptor.
pub record Wire : Type 0 where
  pub fd : Option ℕ
  pub bytes : List ℕ

-- The loop of ws_server_broadcast: clients that are dead, or to which the text cannot be sent, leave
-- the list. `answers` are those of send on each
-- descriptor.
pub deliver :
    List ℕ → (Option ℕ → List Sent) → List Client → List ℕ → List Client × List ℕ × List Wire
deliver msg answers [] closed = ([], closed, [])
deliver msg answers (c ∷ cs) closed =
    let removed = deliver msg answers cs (close_fd c.fd closed) in
    let kept = deliver msg answers cs closed in
    let out = ws_send_text msg (answers c.fd) in
    let wire : Wire = record { fd = c.fd; bytes = out.0 } in
    if not c.alive
    then removed
    else if out.1
    then (c ∷ kept.0, kept.1, wire ∷ kept.2)
    else (removed.0, removed.1, wire ∷ removed.2)

-- What a broadcast decides with the mutex held, before it may sleep.
pub data Decision : Type 0 where
  cut_off dropped : Decision
  send_after : ℕ → Decision

-- While the cut is on: the message is counted, and at the first one all clients are closed.
pub cut_message : Server → Server
cut_message s =
    let counted = record s { cut_msgs = (s.cut_msgs + 1) % 2 ^ 64 } in
    if s.reconnect_mode_close && not s.cut_close_fired
    then record (ws_close_all_clients counted) { cut_close_fired = true }
    else counted

-- Otherwise: `r1` and `r2` are the values of rand() for the drop and the delay.
pub pass_message : Server → ℕ → ℕ → Server × Decision
pass_message s0 r1 r2 =
    let s = record s0 { cut_close_fired = false } in
    if impairment_should_drop s r1
    then (record s { dropped_msgs = (s.dropped_msgs + 1) % 2 ^ 64 }, dropped)
    else let d = impairment_delay_for_msg_ms s r2 in
      if ltb 0 d
      then (record s { delayed_msgs = (s.delayed_msgs + 1) % 2 ^ 64 }, send_after d)
      else (s, send_after 0)

pub decide : Server → ℕ → ℕ → ℕ → Server × Decision
decide s now r1 r2 =
    if impairment_cut_active s now then (cut_message s, cut_off) else pass_message s r1 r2

-- The rest of the call, on the server as it is after the sleep.
pub finish : Server → List ℕ → (Option ℕ → List Sent) → Server × List Wire
finish s msg answers =
    let r = deliver msg answers s.clients s.closed_fds in
    (record s { clients = r.0; closed_fds = r.1 }, r.2)

-- ws_server_broadcast: `meanwhile` is what other threads do to the server while this one sleeps with
-- the mutex free. The result is the server and what was sent.
pub ws_server_broadcast :
    Server → ℕ → ℕ → ℕ → (Server → Server) → List ℕ → (Option ℕ → List Sent) → Server × List Wire
ws_server_broadcast s now r1 r2 meanwhile msg answers =
    let (s', decision) = decide s now r1 r2 in
    elim decision [
      | cut_off ↦ (s', [])
      | dropped ↦ (s', [])
      | send_after zero ↦ finish s' msg answers
      | send_after (suc d) ↦ finish (meanwhile s') msg answers
    ]
