-- ===== src/Ws/Frame/Progress.antt =====
-- ws_recv_frame of src/core/ws_server.c takes bytes off the stream, or fails.
use telemetry_platform_testb.Base.{
  ℕ, ◌+◌, ◌%◌, ◌/◌, ◌≤◌, ◌≡◌, refl, ap, sym, subst, ◌∙◌, inl, inr, arith, Bool, true, false, not,
  List, [], Option, none, some, length, take, get_or, length-drop, Option-cases, dec_le, ltb, ◌==◌,
  ◌>>=◌, if◌then◌else◌,
}
use telemetry_platform_testb.Ws.Socket.{Arrival, recv_all}
use telemetry_platform_testb.Ws.Socket.Delivery.{available, recv_all-Reads, recv_all-short}
use telemetry_platform_testb.Ws.Frame.{
  ws_max_payload, read_length, read_mask, read_payload, read_rest, ws_recv_frame,
}

some_inj {ℓ} : {A : Type ℓ} (a b : A) → some a ≡ some b → a ≡ b
some_inj a b e = ap (λ o. elim o [ none ↦ a | some x ↦ x ]) e

recv_all-less :
    (n : ℕ) (es : List Arrival) (r : List ℕ × List Arrival)
    → recv_all n es ≡ some r
    → length (available r.1) + n ≡ length (available es)
recv_all-less n es r e = elim (dec_le n (length (available es))) [
  | yes enough ↦
      let reads = recv_all-Reads n es enough in
      let same = some_inj r (take n (available es), reads.rest) (sym e ∙ reads.returns) in
      omega (
        arith,
        enough,
        ap (λ r. length (available r.1)) same,
        ap length reads.remains,
        length-drop n (available es),
      )
  | no few ↦ let stuck : none ≡ some r = sym (recv_all-short n es (omega arith)) ∙ e in absurd cc
]

-- A result leaves at most what was there.
abbrev Leaves : {A : Type 0} → (A → List Arrival) → List Arrival → Option A → Type 0
Leaves rest es none = Unit {0}
Leaves rest es (some a) = length (available (rest a)) ≤ length (available es)

module _ {A : Type 0} (rest : A → List Arrival) where
  le-Leaves :
      (es es' : List Arrival) (o : Option A)
      → length (available es') ≤ length (available es)
      → Leaves rest es' o
      → Leaves rest es o
  le-Leaves es es' none h l = tt
  le-Leaves es es' (some a) h l = omega arith

  if-Leaves :
      (es : List Arrival) (b : Bool) (x y : Option A)
      → Leaves rest es x
      → Leaves rest es y
      → Leaves rest es (if b then x else y)
  if-Leaves es true x y hx hy = hx
  if-Leaves es false x y hx hy = hy

  -- After recv_all.
  recv-Leaves :
      (n : ℕ) (es : List Arrival) (f : List ℕ × List Arrival → Option A)
      → ((r : List ℕ × List Arrival) → Leaves rest r.1 (f r))
      → Leaves rest es (recv_all n es >>= f)
  recv-Leaves n es f h = elim (Option-cases (recv_all n es)) [
    | inl stuck ↦ rw (stuck, ◌>>=◌) tt
    | inr (r, e) ↦
        rw (e, ◌>>=◌) (le-Leaves es r.1 (f r) (omega (arith, recv_all-less n es r e)) (h r))
  ]

bind-Leaves :
    {A B : Type 0} (ra : A → List Arrival) (rb : B → List Arrival) (es : List Arrival)
    (o : Option A) (f : A → Option B)
    → Leaves ra es o
    → ((a : A) → Leaves rb (ra a) (f a))
    → Leaves rb es (o >>= f)
bind-Leaves ra rb es none f h g = tt
bind-Leaves ra rb es (some a) f h g = le-Leaves rb es (ra a) (f a) h (g a)

read_length-Leaves : (len : ℕ) (es : List Arrival) → Leaves (λ r. r.1) es (read_length len es)
unfolding read_length
read_length-Leaves len es =
    if-Leaves (λ r. r.1) es (len == 126) _ _ (recv-Leaves (λ r. r.1) 2 es _ (λ r. omega arith))
      (if-Leaves (λ r. r.1) es (len == 127) _ _ (recv-Leaves (λ r. r.1) 8 es _ (λ r. omega arith))
        (omega arith))

read_mask-Leaves : (masked : Bool) (es : List Arrival) → Leaves (λ r. r.1) es (read_mask masked es)
unfolding read_mask
read_mask-Leaves false es = omega arith
read_mask-Leaves true es = elim (Option-cases (recv_all 4 es)) [
  | inl stuck ↦ rw stuck tt
  | inr (r, e) ↦ rw e (omega (arith, recv_all-less 4 es r e))
]

read_payload-Leaves :
    (room masked : Bool) (len : ℕ) (es : List Arrival)
    → Leaves (λ r. r.1) es (read_payload room masked len es)
unfolding read_payload
read_payload-Leaves room masked len es =
    bind-Leaves (λ r. r.1) (λ r. r.1) es (read_mask masked es) _ (read_mask-Leaves masked es)
      (λ m.
        if-Leaves (λ r. r.1) m.1 (not room) none _ tt
          (recv-Leaves (λ r. r.1) len m.1 _ (λ r. omega arith)))

read_rest-Leaves :
    (room : Bool) (opcode : ℕ) (masked : Bool) (field : ℕ) (es : List Arrival)
    → Leaves (λ r. r.2) es (read_rest room opcode masked field es)
unfolding read_rest
read_rest-Leaves room opcode masked field es =
    bind-Leaves (λ l. l.1) (λ r. r.2) es (read_length field es) _ (read_length-Leaves field es)
      (λ l.
        if-Leaves (λ r. r.2) l.1 (ltb ws_max_payload l.0) none _ tt
          (bind-Leaves (λ p. p.1) (λ r. r.2) l.1 (read_payload room masked l.0 l.1) _
            (read_payload-Leaves room masked l.0 l.1) (λ p. omega arith)))

-- A frame that is received took at least its two header bytes off what is to arrive.
pub ws_recv_frame-less :
    (room : Bool) (es : List Arrival) (f : ℕ × List ℕ × List Arrival)
    → ws_recv_frame room es ≡ some f
    → length (available f.2) + 2 ≤ length (available es)
unfolding ws_recv_frame
ws_recv_frame-less room es f e = elim (Option-cases (recv_all 2 es)) [
  | inl stuck ↦
      let gone : ws_recv_frame room es ≡ none = rw (stuck, ◌>>=◌) refl in
      let bad : none ≡ some f = sym gone ∙ e in absurd cc
  | inr (h, two) ↦
      let h0 = get_or h.0 0 0 in
      let h1 = get_or h.0 1 0 in
      let body : ws_recv_frame room es
          ≡ read_rest room (h0 % 16) (h1 / 128 % 2 == 1) (h1 % 128) h.1 =
        rw (two, ◌>>=◌) refl in
      let less =
        subst (λ o. Leaves (λ r. r.2) h.1 o) (sym body ∙ e)
          (read_rest-Leaves room (h0 % 16) (h1 / 128 % 2 == 1) (h1 % 128) h.1) in
      omega (arith, less, recv_all-less 2 es h two)
]

pub ws_recv_frame-empty :
    (room : Bool) (es : List Arrival) → available es ≡ [] → ws_recv_frame room es ≡ none
unfolding ws_recv_frame
ws_recv_frame-empty room es e = rw (recv_all-short 2 es (omega (arith, ap length e)), ◌>>=◌) refl
