-- ===== src/Ws/Broadcast/Impairment.antt =====
-- The cut window, the drop rate and the delay that src/core/ws_server.c imposes on broadcasts.
use telemetry_platform_testb.Base.{
  ◌++◌, some, length, ap, sym, ◌∙◌, append-nil, append_assoc, ℕ, zero, suc, ◌+◌, ◌*◌, ◌%◌, ◌^◌, ◌≤◌,
  ◌<◌, ◌≡◌, ◌↔◌, ◌⊎◌, refl, inl, inr, true, false, List, [], ◌∷◌, Option, none, arith, min,
  Bool-cases, if◌then◌else◌,
}
use native.Mathlib.Nat.{mod-lt}
use telemetry_platform_testb.Ws.Socket.{Sent}
use telemetry_platform_testb.Ws.Broadcast.{
  Client, Server, close_fd, second_ns, impairment_cut_active, impairment_should_drop,
  impairment_delay_for_msg_ms, close_clients, ws_close_all_clients, cut_message, decide,
  ws_server_broadcast,
}

-- With the clock not before the anchor, the cut is on exactly when the anchor is set and the time
-- since it lies in the window [cut_start_s, cut_start_s + cut_duration_s), to the nanosecond.
pub cut_active-window :
    (s : Server) (now : ℕ)
    → s.start_mono_ns ≤ now
    → (impairment_cut_active s now ≡ true) ↔ (
        (s.experiment_anchor_set ≡ true)
        × (s.start_mono_ns + s.cut_start_s * second_ns ≤ now)
        × (now < s.start_mono_ns + (s.cut_start_s + s.cut_duration_s) * second_ns))
unfolding impairment_cut_active
cut_active-window s now h = (λ a. ground arith, λ b. ground arith)

-- How many of the values 0 … n - 1 of rand() drop the message.
abbrev pub drops_below : Server → ℕ → ℕ
drops_below s zero = 0
drops_below s (suc n) = (if impairment_should_drop s n then 1 else 0) + drops_below s n

drops_below-min : (s : Server) (n : ℕ) → n ≤ 100 → drops_below s n ≡ min n s.drop_pct
unfolding impairment_should_drop
drops_below-min s zero h = omega arith
drops_below-min s (suc n) h = ground (arith, drops_below-min s n)

-- Of a hundred consecutive values of rand(), exactly drop_pct drop the message (all, if it is more).
pub drop_rate : (s : Server) → drops_below s 100 ≡ min 100 s.drop_pct
drop_rate s = drops_below-min s 100 (omega arith)

-- The delay lies within the jitter of the configured one, whatever rand() returns, and is the
-- configured one without jitter.
pub delay_bounds :
    (s : Server) (r : ℕ)
    → (s.delay_ms ≤ impairment_delay_for_msg_ms s r + s.jitter_ms)
      × (impairment_delay_for_msg_ms s r ≤ s.delay_ms + s.jitter_ms)
unfolding impairment_delay_for_msg_ms
delay_bounds s r =
    let span : r % (s.jitter_ms * 2 + 1) < s.jitter_ms * 2 + 1 = mod-lt r (omega arith) in
    ground (arith, span)

-- All clients are gone as far as a broadcast can see: dead, with no descriptor.
abbrev pub AllClosed : List Client → Type 0
AllClosed [] = Unit {0}
AllClosed (c ∷ cs) = (c.fd ≡ none) × (c.alive ≡ false) × AllClosed cs

close_clients-AllClosed :
    (cs : List Client) (closed : List ℕ) → AllClosed (close_clients cs closed).0
unfolding close_clients
close_clients-AllClosed [] closed = tt
close_clients-AllClosed (c ∷ cs) closed = (refl, refl, close_clients-AllClosed cs _)

cut-returns :
    (s : Server) (now r1 r2 : ℕ) (meanwhile : Server → Server) (msg : List ℕ)
    (answers : Option ℕ → List Sent)
    → impairment_cut_active s now ≡ true
    → ws_server_broadcast s now r1 r2 meanwhile msg answers ≡ (cut_message s, [])
unfolding ws_server_broadcast decide
cut-returns s now r1 r2 meanwhile msg answers on = ground arith

-- The descriptors of the clients that have one, the last one first, as a log of closes grows.
abbrev pub descriptors : List Client → List ℕ
descriptors [] = []
descriptors (c ∷ cs) = descriptors cs ++ elim c.fd [ none ↦ [] | some fd ↦ fd ∷ [] ]

close_clients-closed :
    (cs : List Client) (closed : List ℕ)
    → ((close_clients cs closed).1 ≡ descriptors cs ++ closed)
      × (length (close_clients cs closed).0 ≡ length cs)
unfolding close_clients
close_clients-closed [] closed = (refl, refl)
close_clients-closed (c ∷ cs) closed =
    let rest = close_clients-closed cs (close_fd c.fd closed) in
    (rest.0 ∙ by_fd c.fd, ap suc rest.1)
  where
    by_fd :
        (fd : Option ℕ)
        → descriptors cs ++ close_fd fd closed
          ≡ (descriptors cs ++ elim fd [ none ↦ [] | some fd ↦ fd ∷ [] ]) ++ closed
    by_fd none = ap (λ d. d ++ closed) (sym (append-nil (descriptors cs)))
    by_fd (some fd) = sym (append_assoc (descriptors cs) (fd ∷ []) closed)

-- With the experiment anchored and the clock in the window of the cut, nothing is sent and the message is
-- counted as cut. In the mode that closes, the first such message closes the descriptor of every client
-- that has one, each once, and leaves as many clients, all dead and without a descriptor; later ones
-- leave the clients, among them those that have come back, as they are; in the other mode every one does.
pub cut_broadcast :
    (s : Server) (now r1 r2 : ℕ) (meanwhile : Server → Server) (msg : List ℕ)
    (answers : Option ℕ → List Sent)
    → s.experiment_anchor_set ≡ true
    → s.start_mono_ns + s.cut_start_s * second_ns ≤ now
    → now < s.start_mono_ns + (s.cut_start_s + s.cut_duration_s) * second_ns
    → let out = ws_server_broadcast s now r1 r2 meanwhile msg answers in
      (out.1 ≡ [])
      × (out.0.cut_msgs ≡ (s.cut_msgs + 1) % 2 ^ 64)
      × (((s.reconnect_mode_close ≡ true)
            × (s.cut_close_fired ≡ false)
            × AllClosed out.0.clients
            × (length out.0.clients ≡ length s.clients)
            × (out.0.closed_fds ≡ descriptors s.clients ++ s.closed_fds)
            × (out.0.cut_close_fired ≡ true))
          ⊎ (((s.reconnect_mode_close ≡ false) ⊎ (s.cut_close_fired ≡ true))
              × (out.0.clients ≡ s.clients)
              × (out.0.closed_fds ≡ s.closed_fds)))
unfolding cut_message ws_close_all_clients
cut_broadcast s now r1 r2 meanwhile msg answers set begun going =
    let on = (cut_active-window s now (omega arith)).1 (set, begun, going) in
    let all = close_clients-AllClosed s.clients s.closed_fds in
    let log = close_clients-closed s.clients s.closed_fds in
    rw (cut-returns s now r1 r2 meanwhile msg answers on) (
      refl,
      ground arith,
      elim (Bool-cases s.reconnect_mode_close) [
        | inr stays ↦ inr (inl stays, ground arith, ground arith)
        | inl mode ↦ elim (Bool-cases s.cut_close_fired) [
          | inl fired ↦ inr (inr fired, ground arith, ground arith)
          | inr first ↦ inl (
            mode,
            first,
            ground (arith, all),
            ground (arith, log),
            ground (arith, log),
            ground arith,
          )
        ]
      ],
    )
