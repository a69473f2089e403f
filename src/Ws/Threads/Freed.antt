-- ===== src/Ws/Threads/Freed.antt =====
-- What a broadcast of src/core/ws_server.c does to a client whose thread is not done.
use telemetry_platform_testb.Base.{
  ℕ, ◌<◌, ◌≡◌, ◌≢◌, inl, inr, refl, ap, sym, subst, ◌∙◌, arith, Bool, false, ◌&&◌, List, [], ◌∷◌,
  Option, none, some, ℕ_discrete, Bool-cases,
}
use telemetry_platform_testb.Ws.Broadcast.{Client}
use telemetry_platform_testb.Ws.Broadcast.Delivery.{count}
use telemetry_platform_testb.Ws.Threads.{
  World, put_at, next, sweep, broadcasts, stops, free_all, perform,
}
use telemetry_platform_testb.Ws.Threads.Lifetime.{
  IsSound, Listed, IsSound-Listed, put_at_self, put_at_ne, count-tail, count-head_ne,
}

drop-Listed :
    (cell : ℕ → Option Client) (p : ℕ) (l : List ℕ)
    → count p l ≡ 0
    → Listed cell l
    → Listed (put_at cell p none) l
drop-Listed cell p [] n h = tt
drop-Listed cell p (x ∷ xs) n h =
    let ne : p ≢ x = λ e. count-head_ne x p xs n (sym e) in
    ((h.0.0, put_at_ne cell p none x ne ∙ h.0.1), h.1, drop-Listed cell p xs (omega (arith, n)) h.2)

-- Where the loop frees one client, and where it leaves memory alone.
sweep_lem :
    (takes : ℕ → Bool) (cell : ℕ → Option Client) (l : List ℕ)
    → Listed cell l
    → (r : (ℕ → Option Client) × List ℕ) × (sweep takes cell l ≡ some r)
      × ((q : ℕ) → count q l ≡ 0 → r.0 q ≡ cell q)
      × ((q : ℕ) (c : Client)
          → 0 < count q l
          → cell q ≡ some c
          → (c.alive && takes q) ≡ false
          → r.0 q ≡ none)
unfolding sweep
sweep_lem takes cell [] h = ((cell, []), refl, (λ q n. refl), (λ q c n. absurd (omega arith)))
sweep_lem takes cell (p ∷ ps) h = elim (Bool-cases (h.0.0.alive && takes p)) [
  | inl keep ↦
      let rest = sweep_lem takes cell ps h.2 in
      (
        (rest.0.0, p ∷ rest.0.1),
        rw (h.0.1, keep, rest.1) refl,
        (λ q n. rest.2 q (omega (arith, n))),
        (λ q c n e dead. elim (ℕ_discrete p q) [
          | yes same ↦
              let found : some h.0.0 ≡ some c = sym h.0.1 ∙ (ap cell same ∙ e) in
              let taken : takes p ≡ takes q = ap takes same in absurd cc
          | no ne ↦ rest.3 q c (omega (arith, n, count-tail p q ps ne)) e dead
        ]),
      )
  | inr drop ↦
      let less = put_at cell p none in
      let rest = sweep_lem takes less ps (drop-Listed cell p ps h.1 h.2) in
      (
        rest.0,
        rw (h.0.1, drop, rest.1) refl,
        (λ q n. rest.2 q (omega (arith, n)) ∙ put_at_ne cell p none q (count-head_ne p q ps n)),
        (λ q c n e dead. elim (ℕ_discrete p q) [
          | yes same ↦
              let gone : put_at cell p none q ≡ none =
                subst (λ q. put_at cell p none q ≡ none) same (put_at_self cell p none) in
              rest.2 q (subst (λ q. count q ps ≡ 0) same h.1) ∙ gone
          | no ne ↦
              rest.3 q c (omega (arith, n, count-tail p q ps ne)) (put_at_ne cell p none q ne ∙ e)
                dead
        ]),
      )
]

module _ (s : World) (takes : ℕ → Bool) (p : ℕ) (c : Client) (sound : IsSound s)
    (cell_p : s.cell p ≡ some c) (refused : (c.alive && takes p) ≡ false)
    (listed : 0 < count p s.clients) where
  -- The broadcast frees the client, and its thread stands where it stood.
  pub broadcasts-cell :
      (t : World) × (perform (broadcasts takes) s ≡ next t)
      × (t.cell p ≡ none)
      × (t.thread ≡ s.thread)
  unfolding perform
  broadcasts-cell =
      let r = sweep_lem takes s.cell s.clients (IsSound-Listed s sound) in
      (record s { cell = r.0.0; clients = r.0.1 }, rw r.1 refl, r.3 p c listed cell_p refused, refl)

free_all_lem :
    (cell : ℕ → Option Client) (l : List ℕ)
    → Listed cell l
    → (cell' : ℕ → Option Client) × (free_all cell l ≡ some cell')
      × ((q : ℕ) → count q l ≡ 0 → cell' q ≡ cell q)
      × ((q : ℕ) → 0 < count q l → cell' q ≡ none)
unfolding free_all
free_all_lem cell [] h = (cell, refl, (λ q n. refl), (λ q n. absurd (omega arith)))
free_all_lem cell (p ∷ ps) h =
    let less = put_at cell p none in
    let rest = free_all_lem less ps (drop-Listed cell p ps h.1 h.2) in
    (
      rest.0,
      rw h.0.1 rest.1,
      λ q n. rest.2 q (omega (arith, n)) ∙ put_at_ne cell p none q (count-head_ne p q ps n),
      λ q n. elim (ℕ_discrete p q) [
        | yes same ↦
            let gone : put_at cell p none q ≡ none =
              subst (λ q. put_at cell p none q ≡ none) same (put_at_self cell p none) in
            rest.2 q (subst (λ q. count q ps ≡ 0) same h.1) ∙ gone
        | no ne ↦ rest.3 q (omega (arith, n, count-tail p q ps ne))
      ],
    )

-- The stop frees every client of the list, and each thread stands where it stood.
pub stops-cell :
    (s : World) (p : ℕ)
    → IsSound s
    → 0 < count p s.clients
    → (t : World) × (perform stops s ≡ next t) × (t.cell p ≡ none) × (t.thread ≡ s.thread)
unfolding perform
stops-cell s p sound listed =
    let r = free_all_lem s.cell s.clients (IsSound-Listed s sound) in
    (record s { cell = r.0; clients = [] }, rw r.1 refl, r.3 p listed, refl)
