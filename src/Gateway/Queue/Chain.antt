-- ===== src/Gateway/Queue/Chain.antt =====
-- Linked lists on the heap of Gateway/Queue.antt.
use telemetry_platform_testb.Base.{
  ℕ, ◌≡◌, ◌≢◌, refl, ap, sym, List, [], ◌∷◌, ◌++◌, Option, none, some, arith,
}
use telemetry_platform_testb.Gateway.Queue.{Node, update}

module _ {A : Type 0} where
  -- `a` is the address of no node of the list.
  abbrev pub Apart : ℕ → List (ℕ × A) → Type 0
  Apart a [] = Unit {0}
  Apart a ((b, s) ∷ ns) = (a ≢ b) × Apart a ns

  -- From the pointer `p` the heap holds these nodes, each at an address of its own, up to NULL.
  abbrev pub Chain : (ℕ → Option (Node A)) → Option ℕ → List (ℕ × A) → Type 0
  Chain cell p [] = p ≡ none
  Chain cell p ((a, s) ∷ ns) =
      (next : Option ℕ) × (p ≡ some a)
      × (cell a ≡ some (record { s = s; next = next }))
      × Apart a ns
      × Chain cell next ns

  abbrev pub last_address : List (ℕ × A) → Option ℕ
  last_address [] = none
  last_address ((a, s) ∷ []) = some a
  last_address ((a, s) ∷ n ∷ ns) = last_address (n ∷ ns)

  abbrev pub samples : List (ℕ × A) → List A
  samples [] = []
  samples ((a, s) ∷ ns) = s ∷ samples ns

  pub samples-append : (ms ns : List (ℕ × A)) → samples (ms ++ ns) ≡ samples ms ++ samples ns
  samples-append [] ns = refl
  samples-append ((a, s) ∷ ms) ns = ap (◌∷◌ s) (samples-append ms ns)

  -- A write outside a chain leaves it.
  pub Chain-update :
      (cell : ℕ → Option (Node A)) (a : ℕ) (n : Option (Node A)) (p : Option ℕ) (ns : List (ℕ × A))
      → Apart a ns
      → Chain cell p ns
      → Chain (update cell a n) p ns
  Chain-update cell a n p [] out c = c
  Chain-update cell a n p ((b, s) ∷ ns) out c =
      (c.0, c.1, ground arith, c.3, Chain-update cell a n c.0 ns out.1 c.4)

  -- A free address is in no chain.
  pub Apart-free :
      (cell : ℕ → Option (Node A)) (a : ℕ) (p : Option ℕ) (ns : List (ℕ × A))
      → cell a ≡ none
      → Chain cell p ns
      → Apart a ns
  Apart-free cell a p [] free c = tt
  Apart-free cell a p ((b, s) ∷ ns) free c =
      (λ e. cc (ap cell e), Apart-free cell a c.0 ns free c.4)

  Apart-append :
      (a b : ℕ) (s : A) (ns : List (ℕ × A)) → Apart a ns → a ≢ b → Apart a (ns ++ (b, s) ∷ [])
  Apart-append a b s [] out ne = (ne, tt)
  Apart-append a b s ((c, u) ∷ ns) out ne = (out.0, Apart-append a b s ns out.1 ne)

  pub last_address-ne :
      (a t : ℕ) (ns : List (ℕ × A)) → Apart a ns → last_address ns ≡ some t → a ≢ t
  last_address-ne a t [] out e = cc
  last_address-ne a t ((b, s) ∷ []) out e = λ same. out.0 (ground arith)
  last_address-ne a t ((b, s) ∷ n ∷ ns) out e = last_address-ne a t (n ∷ ns) out.1 e

  -- The last node of a chain, with its next pointer set to a node that ends there.
  pub Chain-snoc :
      (cell : ℕ → Option (Node A)) (t : ℕ) (last : Node A) (n : ℕ) (s : A) (p : Option ℕ)
      (ns : List (ℕ × A))
      → last_address ns ≡ some t
      → cell t ≡ some last
      → cell n ≡ some (record { s = s; next = none })
      → Apart n ns
      → Chain cell p ns
      → Chain (update cell t (some (record last { next = some n }))) p (ns ++ (n, s) ∷ [])
  Chain-snoc cell t last n s p [] e found new out c = cc
  Chain-snoc cell t last n s p ((a, u) ∷ []) e found new out c =
      let same : a ≡ t = ground arith in
      (
        some n,
        c.1,
        ground (arith, ap cell same),
        (λ q. out.0 (sym q), tt),
        (none, refl, ground arith, tt, refl),
      )
  Chain-snoc cell t last n s p ((a, u) ∷ m ∷ ns) e found new out c =
      let apart : a ≢ t = last_address-ne a t (m ∷ ns) c.3 e in
      (
        c.0,
        c.1,
        ground arith,
        Apart-append a n s (m ∷ ns) c.3 (λ q. out.0 (sym q)),
        Chain-snoc cell t last n s c.0 (m ∷ ns) e found new out.1 c.4,
      )

  pub last_address-snoc :
      (n : ℕ) (s : A) (ns : List (ℕ × A)) → last_address (ns ++ (n, s) ∷ []) ≡ some n
  last_address-snoc n s [] = refl
  last_address-snoc n s (a ∷ []) = refl
  last_address-snoc n s (a ∷ b ∷ ns) = last_address-snoc n s (b ∷ ns)

  -- The tail of a chain can be read.
  pub Chain-last :
      (cell : ℕ → Option (Node A)) (t : ℕ) (p : Option ℕ) (ns : List (ℕ × A))
      → last_address ns ≡ some t
      → Chain cell p ns
      → (last : Node A) × (cell t ≡ some last)
  Chain-last cell t p [] e c = cc
  Chain-last cell t p ((a, u) ∷ []) e c = (record { s = u; next = c.0 }, ground arith)
  Chain-last cell t p ((a, u) ∷ m ∷ ns) e c = Chain-last cell t c.0 (m ∷ ns) e c.4
