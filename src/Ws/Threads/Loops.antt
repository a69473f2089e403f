-- ===== src/Ws/Threads/Loops.antt =====
-- The loops over the clients of src/core/ws_server.c that free none.
use telemetry_platform_testb.Base.{
  ℕ, ◌≡◌, refl, subst, ◌∙◌, arith, Bool, true, false, ◌&&◌, List, [], ◌∷◌, Option, none, some,
  ℕ_discrete,
}
use telemetry_platform_testb.Ws.Broadcast.{Client}
use telemetry_platform_testb.Ws.Broadcast.Delivery.{count}
use telemetry_platform_testb.Ws.Threads.{put_at, sweep, shut}
use telemetry_platform_testb.Ws.Threads.Lifetime.{
  Allocated, Listed, put_at_self, put_at_ne, count-head_ne,
}

-- Each client in the list is alive and takes the text.
abbrev pub AllTake : (ℕ → Bool) → (ℕ → Option Client) → List ℕ → Type 0
AllTake takes cell [] = Unit {0}
AllTake takes cell (p ∷ ps) =
    ((c : Client) × (cell p ≡ some c) × ((c.alive && takes p) ≡ true)) × AllTake takes cell ps

pub sweep-AllTake :
    (takes : ℕ → Bool) (cell : ℕ → Option Client) (l : List ℕ)
    → AllTake takes cell l
    → sweep takes cell l ≡ some (cell, l)
unfolding sweep
sweep-AllTake takes cell [] h = refl
sweep-AllTake takes cell (p ∷ ps) h = rw (h.0.1, h.0.2, sweep-AllTake takes cell ps h.1) refl

keep-Listed :
    (cell cell' : ℕ → Option Client) (l : List ℕ)
    → ((q : ℕ) → Allocated cell q → Allocated cell' q)
    → Listed cell l
    → Listed cell' l
keep-Listed cell cell' [] keep h = tt
keep-Listed cell cell' (p ∷ ps) keep h = (keep p h.0, h.1, keep-Listed cell cell' ps keep h.2)

put_at-Allocated :
    (cell : ℕ → Option Client) (p : ℕ) (c : Client) (q : ℕ)
    → Allocated cell q
    → Allocated (put_at cell p (some c)) q
put_at-Allocated cell p c q a = elim (ℕ_discrete p q) [
  | yes e ↦ (c, subst (λ q. put_at cell p (some c) q ≡ some c) e (put_at_self cell p (some c)))
  | no ne ↦ (a.0, put_at_ne cell p (some c) q ne ∙ a.1)
]

pub shut_lem :
    (cell : ℕ → Option Client) (l : List ℕ)
    → Listed cell l
    → (cell' : ℕ → Option Client) × (shut cell l ≡ some cell')
      × ((q : ℕ) → Allocated cell q → Allocated cell' q)
      × ((q : ℕ) → count q l ≡ 0 → cell' q ≡ cell q)
unfolding shut
shut_lem cell [] h = (cell, refl, (λ q a. a), (λ q n. refl))
shut_lem cell (p ∷ ps) h =
    let c : Client = record { fd = none; alive = false } in
    let next = put_at cell p (some c) in
    let keep = put_at-Allocated cell p c in
    let rest = shut_lem next ps (keep-Listed cell next ps keep h.2) in
    (
      rest.0,
      rw (h.0.1) (rest.1),
      (λ q a. rest.2 q (keep q a)),
      (λ q n.
          let ne = count-head_ne p q ps n in
          rest.3 q (omega (arith, n)) ∙ put_at_ne cell p (some c) q ne),
    )
