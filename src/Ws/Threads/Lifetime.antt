-- ===== src/Ws/Threads/Lifetime.antt =====
-- When the clients of src/core/ws_server.c are safe from use after free.
use telemetry_platform_testb.Base.{
  ℕ, suc, ◌≤◌, ◌<◌, ◌≡◌, ◌≢◌, refl, sym, subst, ◌∙◌, arith, true, false, List, [], ◌∷◌, Option,
  none, some, ◌==◌, ℕ_discrete,
}
use telemetry_platform_testb.Ws.Broadcast.{Client}
use telemetry_platform_testb.Ws.Broadcast.Delivery.{count}
use telemetry_platform_testb.Ws.Threads.{
  Pc, running, leaving, removing, freeing, absent, unstarted, World, put_at, unlinked,
}

abbrev pub Allocated : (ℕ → Option Client) → ℕ → Type 0
Allocated cell p = (c : Client) × (cell p ≡ some c)

-- What the position of a thread means for its client.
abbrev pub Fits : Pc → (ℕ → Option Client) → List ℕ → ℕ → Type 0
Fits running cell l p = Allocated cell p × (count p l ≡ 1)
Fits leaving cell l p = Allocated cell p × (count p l ≡ 1)
Fits removing cell l p = Allocated cell p × (count p l ≡ 1)
Fits unstarted cell l p = Allocated cell p × (count p l ≡ 1)
Fits freeing cell l p = Allocated cell p × (count p l ≡ 0)
Fits absent cell l p = (cell p ≡ none) × (count p l ≡ 0)

-- A client is allocated while its thread lives, and in the list, once, until client_remove.
pub record IsSound (s : World) : Type 0 where
  pub fits : (p : ℕ) → Fits (s.thread p) s.cell s.clients p

Fits-Allocated :
    (pc : Pc) (cell : ℕ → Option Client) (l : List ℕ) (p : ℕ)
    → Fits pc cell l p
    → 0 < count p l
    → Allocated cell p
Fits-Allocated running cell l p f h = f.0
Fits-Allocated leaving cell l p f h = f.0
Fits-Allocated removing cell l p f h = f.0
Fits-Allocated unstarted cell l p f h = f.0
Fits-Allocated freeing cell l p f h = f.0
Fits-Allocated absent cell l p f h = absurd (omega arith)

-- Every client in the list is allocated, and in it once.
abbrev pub Listed : (ℕ → Option Client) → List ℕ → Type 0
Listed cell [] = Unit {0}
Listed cell (p ∷ ps) = Allocated cell p × (count p ps ≡ 0) × Listed cell ps

Fits-le :
    (pc : Pc) (cell : ℕ → Option Client) (l : List ℕ) (p : ℕ) → Fits pc cell l p → count p l ≤ 1
Fits-le running cell l p f = omega arith
Fits-le leaving cell l p f = omega arith
Fits-le removing cell l p f = omega arith
Fits-le unstarted cell l p f = omega arith
Fits-le freeing cell l p f = omega arith
Fits-le absent cell l p f = omega arith

pub count-head : (p : ℕ) (ps : List ℕ) → count p (p ∷ ps) ≡ suc (count p ps)
count-head p ps = let self : (p == p) ≡ true = ground arith in rw self (omega arith)

pub count-tail : (p q : ℕ) (ps : List ℕ) → p ≢ q → count q (p ∷ ps) ≡ count q ps
count-tail p q ps ne = let far : (p == q) ≡ false = ground arith in rw far (omega arith)

pub count-head_ne : (p q : ℕ) (ps : List ℕ) → count q (p ∷ ps) ≡ 0 → p ≢ q
count-head_ne p q ps n e =
    let head : count q (p ∷ ps) ≡ suc (count q ps) =
      subst (λ x. count q (x ∷ ps) ≡ suc (count q ps)) (sym e) (count-head q ps) in
    absurd (omega (arith, n, head))

all-Listed :
    (cell : ℕ → Option Client) (l : List ℕ)
    → ((p : ℕ) → 0 < count p l → Allocated cell p)
    → ((p : ℕ) → count p l ≤ 1)
    → Listed cell l
all-Listed cell [] all once = tt
all-Listed cell (p ∷ ps) all once =
    let head = count-head p ps in
    (
      all p (omega (arith, head)),
      omega (arith, head, once p),
      all-Listed cell ps (λ q h. all q (omega arith)) (λ q. omega (arith, once q)),
    )

pub IsSound-Listed : (s : World) → IsSound s → Listed s.cell s.clients
IsSound-Listed s sound =
    all-Listed s.cell s.clients (λ p. Fits-Allocated (s.thread p) s.cell s.clients p (sound.fits p))
      (λ p. Fits-le (s.thread p) s.cell s.clients p (sound.fits p))

-- What is about one client sees no more of the memory and the list than that client.
pub same-Fits :
    (pc : Pc) (cell cell' : ℕ → Option Client) (l l' : List ℕ) (p : ℕ)
    → (Allocated cell p → Allocated cell' p)
    → (cell p ≡ none → count p l ≡ 0 → cell' p ≡ none)
    → count p l' ≡ count p l
    → Fits pc cell l p
    → Fits pc cell' l' p
same-Fits running cell cell' l l' p keep gone n f = (keep f.0, n ∙ f.1)
same-Fits leaving cell cell' l l' p keep gone n f = (keep f.0, n ∙ f.1)
same-Fits removing cell cell' l l' p keep gone n f = (keep f.0, n ∙ f.1)
same-Fits unstarted cell cell' l l' p keep gone n f = (keep f.0, n ∙ f.1)
same-Fits freeing cell cell' l l' p keep gone n f = (keep f.0, n ∙ f.1)
same-Fits absent cell cell' l l' p keep gone n f = (gone f.0 f.1, n ∙ f.1)

module _ {A : Type 0} (f : ℕ → A) (p : ℕ) (a : A) where
  pub put_at_self : put_at f p a p ≡ a
  put_at_self = let same : (p == p) ≡ true = ground arith in rw same refl

  pub put_at_ne : (q : ℕ) → p ≢ q → put_at f p a q ≡ f q
  put_at_ne q ne = let other : (p == q) ≡ false = ground arith in rw other refl

-- A thread moves on: it is enough to look at its own client.
pub moved :
    (s : World) (p : ℕ) (pc : Pc) (o : Option Client) (l : List ℕ)
    → IsSound s
    → Fits pc (put_at s.cell p o) l p
    → ((q : ℕ) → p ≢ q → count q l ≡ count q s.clients)
    → IsSound (record { cell = put_at s.cell p o; clients = l; thread = put_at s.thread p pc })
moved s p pc o l sound own others = record {
  fits = λ q. elim (ℕ_discrete p q) [
    | yes e ↦
        subst (λ q. Fits (put_at s.thread p pc q) (put_at s.cell p o) l q) e
          (rw (put_at_self s.thread p pc) own)
    | no ne ↦
        let same = put_at_ne s.cell p o q ne in
        rw (put_at_ne s.thread p pc q ne) (
          same-Fits (s.thread q) s.cell (put_at s.cell p o) s.clients l q (λ a. (a.0, same ∙ a.1))
            (λ e n. same ∙ e) (others q ne) (sound.fits q))
  ];
}

-- client_remove takes the client out, and finds every other one in place.
pub unlinked_lem :
    (cell : ℕ → Option Client) (p : ℕ) (l : List ℕ)
    → Listed cell l
    → (r : List ℕ) × (unlinked cell p l ≡ some r)
      × (count p r ≡ 0)
      × ((q : ℕ) → p ≢ q → count q r ≡ count q l)
unfolding unlinked
unlinked_lem cell p [] ok = ([], refl, refl, (λ q ne. refl))
unlinked_lem cell p (x ∷ xs) ok =
    let later = unlinked_lem cell p xs ok.2 in
    elim (ℕ_discrete x p) [
      | yes e ↦
          let here : (x == p) ≡ true = ground arith in
          let other : (q : ℕ) → p ≢ q → (x == q) ≡ false = λ q ne. ground arith in
          (
            xs,
            rw (ok.0.1, here) refl,
            subst (λ y. count y xs ≡ 0) e ok.1,
            (λ q ne. rw (other q ne) (omega arith)),
          )
      | no ne ↦
          let here : (x == p) ≡ false = ground arith in
          (
            x ∷ later.0,
            rw (ok.0.1, here, later.1) refl,
            rw here (omega (arith, later.2)),
            (λ q nq. omega (arith, later.3 q nq)),
          )
    ]
