-- ===== src/Ws/Socket/Delivery.antt =====
-- What recv_all and send_all of src/core/ws_server.c deliver, however the stream is cut up.
use telemetry_platform_testb.Base.{
  ◌>>=◌, ℕ, zero, suc, ◌-◌, ◌≤◌, ◌<◌, ◌≡◌, refl, ap, sym, ◌∙◌, true, false, List, [], ◌∷◌, ◌++◌,
  append-nil, append_assoc, Option, none, some, arith, length, take, drop, length-append,
  take-append-drop, take-append_length, take-append_le, drop-append_le, take-append_ge,
  drop-append_ge, drop-append_length, le→leb, lt→leb, ◌≢◌, dec_le,
}
use telemetry_platform_testb.Ws.Socket.{
  Arrival, chunk, interrupted, closed, failed, left_over, recv_all, Sent, took, retry, failure,
  send_all,
}

-- The bytes that arrive before the stream ends or fails.
abbrev pub available : List Arrival → List ℕ
available [] = []
available (chunk b bs ∷ es) = b ∷ (bs ++ available es)
available (interrupted ∷ es) = available es
available (closed ∷ es) = []
available (failed ∷ es) = []

available-left_over :
    (bs : List ℕ) (es : List Arrival) → available (left_over bs es) ≡ bs ++ available es
available-left_over [] es = refl
available-left_over (b ∷ bs) es = refl

-- `n` bytes were read off the front of what arrives.
pub record Reads (n : ℕ) (es : List Arrival) (result : Option (List ℕ × List Arrival))
    : Type 0 where
  pub rest : List Arrival
  pub returns : result ≡ some (take n (available es), rest)
  pub remains : available rest ≡ drop n (available es)

-- If `n` bytes arrive, recv_all reads exactly those, and leaves the later ones, however they are cut
-- into chunks and whatever interrupts the calls.
pub recv_all-Reads :
    (n : ℕ) (es : List Arrival) → n ≤ length (available es) → Reads n es (recv_all n es)
unfolding recv_all
recv_all-Reads zero es h = record { rest = es; returns = refl; remains = refl }
recv_all-Reads (suc n) [] h = absurd (omega arith)
recv_all-Reads (suc n) (interrupted ∷ es) h =
    let r = recv_all-Reads (suc n) es h in
    record { rest = r.rest; returns = r.returns; remains = r.remains }
recv_all-Reads (suc n) (closed ∷ es) h = absurd (omega arith)
recv_all-Reads (suc n) (failed ∷ es) h = absurd (omega arith)
recv_all-Reads (suc n) (chunk b bs ∷ es) h = elim (dec_le (length bs) n) [
  | yes all ↦
      let r = recv_all-Reads (n - length bs) es (omega (arith, length-append bs (available es))) in
      record {
        rest = r.rest;
        returns =
            rw (le→leb (length bs) n all, r.returns, ◌>>=◌)
              (ap (λ ys. some (b ∷ ys, r.rest)) (sym (take-append_ge n bs (available es) all)));
        remains = r.remains ∙ sym (drop-append_ge n bs (available es) all);
      }
  | no part ↦
      let fits : n ≤ length bs = omega arith in
      record {
        rest = left_over (drop n bs) es;
        returns = rw (lt→leb (length bs) n (omega arith)) (
            ap (λ ys. some (b ∷ ys, left_over (drop n bs) es))
              (sym (take-append_le n bs (available es) fits)));
        remains =
            available-left_over (drop n bs) es ∙ sym (drop-append_le n bs (available es) fits);
      }
]

-- If fewer arrive before the stream ends or fails, recv_all fails.
pub recv_all-short : (n : ℕ) (es : List Arrival) → length (available es) < n → recv_all n es ≡ none
unfolding recv_all
recv_all-short zero es h = absurd (omega arith)
recv_all-short (suc n) [] h = refl
recv_all-short (suc n) (interrupted ∷ es) h = recv_all-short (suc n) es h
recv_all-short (suc n) (closed ∷ es) h = refl
recv_all-short (suc n) (failed ∷ es) h = refl
recv_all-short (suc n) (chunk b bs ∷ es) h =
    let size = length-append bs (available es) in
    rw (
      le→leb (length bs) n (omega (arith, size)),
      recv_all-short (n - length bs) es (omega (arith, size)),
      ◌>>=◌,
    )

-- The bytes that go out are a front part of the buffer, and all of it exactly when send_all succeeds.
pub send_all-prefix :
    (bs : List ℕ) (ws : List Sent)
    → (unsent : List ℕ) × (bs ≡ (send_all bs ws).0 ++ unsent)
      × ((send_all bs ws).1 ≡ true → unsent ≡ [])
      × ((send_all bs ws).1 ≡ false → unsent ≢ [])
unfolding send_all
send_all-prefix [] ws = ([], refl, (λ h. refl), (λ h. cc))
send_all-prefix (b ∷ bs) [] = (b ∷ bs, refl, (λ h. cc), (λ h e. cc))
send_all-prefix (b ∷ bs) (retry ∷ ws) = send_all-prefix (b ∷ bs) ws
send_all-prefix (b ∷ bs) (failure ∷ ws) = (b ∷ bs, refl, (λ h. cc), (λ h e. cc))
send_all-prefix (b ∷ bs) (took k ∷ ws) =
    let rest = send_all-prefix (drop k bs) ws in
    (
      rest.0,
      ap (◌∷◌ b) (
          sym (take-append-drop k bs)
          ∙ ap (λ ys. take k bs ++ ys) rest.1
          ∙ sym (append_assoc (take k bs) (send_all (drop k bs) ws).0 rest.0)),
      rest.2,
      rest.3,
    )

pub send_all-whole :
    (bs : List ℕ) (ws : List Sent) → (send_all bs ws).1 ≡ true → (send_all bs ws).0 ≡ bs
send_all-whole bs ws ok =
    let p = send_all-prefix bs ws in
    sym (p.1 ∙ ap (λ x. (send_all bs ws).0 ++ x) (p.2 ok) ∙ append-nil (send_all bs ws).0)

-- Reading off the front of a stream that begins with `bs`.
pub recv_all-front :
    (bs later : List ℕ) (es : List Arrival)
    → available es ≡ bs ++ later
    → (rest : List Arrival) × (recv_all (length bs) es ≡ some (bs, rest)) × (available rest ≡ later)
recv_all-front bs later es e =
    let r = recv_all-Reads (length bs) es (omega (arith, ap length e, length-append bs later)) in
    (
      r.rest,
      r.returns
          ∙ ap (λ ys. some (ys, r.rest)) (ap (take (length bs)) e ∙ take-append_length bs later),
      r.remains ∙ ap (drop (length bs)) e ∙ drop-append_length bs later,
    )
