-- ===== src/Ws/Broadcast/Delivery.antt =====
-- Who receives a broadcast of src/core/ws_server.c, and that its descriptors are neither leaked nor
-- closed twice.
use telemetry_platform_testb.Base.{
  ℕ, ◌+◌, ◌^◌, ◌<◌, ◌≡◌, refl, Bool, false, ◌&&◌, List, [], ◌∷◌, map, Option, none, some, arith,
  length, ◌==◌, if◌then◌else◌,
}
use telemetry_platform_testb.Ws.Socket.{Sent}
use telemetry_platform_testb.Ws.Frame.{ws_send_text}
use telemetry_platform_testb.Ws.Frame.RoundTrip.{frame}
use telemetry_platform_testb.Ws.Frame.Sending.{ws_send_text-frame}
use telemetry_platform_testb.Ws.Broadcast.{
  Client, Server, Wire, close_fd, close_clients, ws_close_all_clients, deliver, cut_message,
  pass_message, decide, finish, ws_server_broadcast,
}

abbrev pub keep {ℓ} : {A : Type ℓ} → (A → Bool) → List A → List A
keep p [] = []
keep p (x ∷ xs) = if p x then x ∷ keep p xs else keep p xs

-- How often a descriptor stands in a list, and among the clients.
abbrev pub count : ℕ → List ℕ → ℕ
count fd [] = 0
count fd (x ∷ xs) = (if x == fd then 1 else 0) + count fd xs

abbrev pub held : ℕ → List Client → ℕ
held fd [] = 0
held fd (c ∷ cs) = count fd (close_fd c.fd []) + held fd cs

count-close_fd :
    (x : ℕ) (fd : Option ℕ) (closed : List ℕ)
    → count x (close_fd fd closed) ≡ count x (close_fd fd []) + count x closed
count-close_fd x none closed = omega arith
count-close_fd x (some fd) closed = omega arith

module _ (msg : List ℕ) (answers : Option ℕ → List Sent) where
  -- The client is alive and send takes the whole text for it.
  abbrev pub receives : Client → Bool
  receives c = c.alive && (ws_send_text msg (answers c.fd)).1

  abbrev pub sent_to : Client → Wire
  sent_to c = record { fd = c.fd; bytes = (ws_send_text msg (answers c.fd)).0 }

  abbrev pub whole_frame : Client → Wire
  whole_frame c = record { fd = c.fd; bytes = frame 1 false [] msg }

  -- The clients that stay in the list are exactly those that are alive and took the whole text,
  -- in their order; each live client was sent to once; and what each that stays was sent is exactly one
  -- text frame with the message.
  pub deliver_lem :
      (cs : List Client) (closed : List ℕ)
      → length msg < 2 ^ 64
      → ((deliver msg answers cs closed).0 ≡ keep receives cs)
        × ((deliver msg answers cs closed).2 ≡ map sent_to (keep (λ c. c.alive) cs))
        × (map sent_to (keep receives cs) ≡ map whole_frame (keep receives cs))
  unfolding deliver
  deliver_lem [] closed small = (refl, refl, refl)
  deliver_lem (c ∷ cs) closed small =
      let later = deliver_lem cs closed small in
      let other = deliver_lem cs (close_fd c.fd closed) small in
      let whole = ws_send_text-frame msg (answers c.fd) small in
      (
        ground (arith, later.0, other.0),
        ground (arith, later.1, other.1),
        ground (arith, later.2, whole),
      )

  -- A descriptor is held by a client or has been closed: a delivery moves it from the one to the
  -- other, once.
  pub deliver-held :
      (fd : ℕ) (cs : List Client) (closed : List ℕ)
      → held fd (deliver msg answers cs closed).0 + count fd (deliver msg answers cs closed).1
        ≡ held fd cs + count fd closed
  unfolding deliver
  deliver-held fd [] closed = refl
  deliver-held fd (c ∷ cs) closed = ground (
    arith,
    deliver-held fd cs closed,
    deliver-held fd cs (close_fd c.fd closed),
    count-close_fd fd c.fd closed,
  )

-- The same of closing all clients.
close_clients-held :
    (fd : ℕ) (cs : List Client) (closed : List ℕ)
    → held fd (close_clients cs closed).0 + count fd (close_clients cs closed).1
      ≡ held fd cs + count fd closed
unfolding close_clients
close_clients-held fd [] closed = refl
close_clients-held fd (c ∷ cs) closed =
    omega (arith, close_clients-held fd cs (close_fd c.fd closed), count-close_fd fd c.fd closed)

-- A descriptor's place: with a client, or among the closed ones.
abbrev pub places : ℕ → Server → ℕ
places fd s = held fd s.clients + count fd s.closed_fds

decide-places :
    (fd : ℕ) (s : Server) (now r1 r2 : ℕ) → places fd (decide s now r1 r2).0 ≡ places fd s
unfolding decide cut_message ws_close_all_clients pass_message
decide-places fd s now r1 r2 = ground (arith, close_clients-held fd s.clients s.closed_fds)

-- A broadcast leaks no descriptor and closes none twice, in every branch: how often a descriptor is
-- held by the clients or has been closed stays the same, if it does over what other threads do during
-- the sleep.
pub broadcast-places :
    (fd : ℕ) (s : Server) (now r1 r2 : ℕ) (meanwhile : Server → Server) (msg : List ℕ)
    (answers : Option ℕ → List Sent)
    → ((t : Server) → places fd (meanwhile t) ≡ places fd t)
    → places fd (ws_server_broadcast s now r1 r2 meanwhile msg answers).0 ≡ places fd s
unfolding ws_server_broadcast finish
broadcast-places fd s now r1 r2 meanwhile msg answers calm = ground (
  arith,
  decide-places fd s now r1 r2,
  calm (decide s now r1 r2).0,
  deliver-held msg answers fd (decide s now r1 r2).0.clients (decide s now r1 r2).0.closed_fds,
  deliver-held msg answers fd (meanwhile (decide s now r1 r2).0).clients
      (meanwhile (decide s now r1 r2).0).closed_fds,
)
