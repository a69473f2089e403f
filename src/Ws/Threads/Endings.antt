-- ===== src/Ws/Threads/Endings.antt =====
-- When the threads of src/core/ws_server.c run without a use after free.
use telemetry_platform_testb.Base.{
  ℕ, ◌≡◌, ap, inl, inr, refl, subst, sym, ◌∙◌, arith, Bool, true, ◌&&◌, List, [], ◌∷◌, Option, some,
  Bool-cases,
}
use telemetry_platform_testb.Ws.Broadcast.{Client}
use telemetry_platform_testb.Ws.Broadcast.Delivery.{count}
use telemetry_platform_testb.Ws.Threads.{
  free_all, Pc, running, leaving, removing, freeing, absent, unstarted, stands_at, World, put_at,
  Outcome, fault, next, Action, accepts, strands, works, abandons, closes, unlinks, frees,
  broadcasts, cuts, stops, detaches, accept_client, work, perform, perform_all,
}
use telemetry_platform_testb.Ws.Threads.Lifetime.{
  Fits, Allocated, IsSound, IsSound-Listed, same-Fits, put_at_self, moved, count-head, count-tail,
}
use telemetry_platform_testb.Ws.Threads.Loops.{AllTake, sweep-AllTake, shut_lem}
use telemetry_platform_testb.Ws.Threads.Steps.{
  at_pc, Steps, leaves-Steps, abandons-Steps, closes-Steps, unlinks-Steps, frees-Steps,
}

-- No broadcast frees a client: it finds all alive, and all take the text; the stop finds none; and
-- accept_thread detaches a thread before that thread has freed its client.
abbrev pub Spares : Action → World → Type 0
Spares (broadcasts takes) s = AllTake takes s.cell s.clients
Spares stops s = s.clients ≡ []
Spares (detaches p) s = Allocated s.cell p
Spares _ s = Unit {0}

IsSafe : Action → World → Type 0
IsSafe a s = (t : World) × (perform a s ≡ next t) × IsSound t

module _ (s : World) (sound : IsSound s) (p : ℕ) where
  -- The client that accept_thread links, for a thread or not.
  accepted-IsSound :
      (fd : ℕ) (pc : Pc)
      → stands_at absent (s.thread p) ≡ true
      → ((cell : ℕ → Option Client) (l : List ℕ)
          → Allocated cell p
          → count p l ≡ 1
          → Fits pc cell l p)
      → IsSound (accept_client p fd pc s)
  unfolding accept_client
  accepted-IsSound fd pc e fits =
      let c : Client = record { fd = some fd; alive = true } in
      let f = at_pc s sound p absent e in
      moved s p pc (some c) (p ∷ s.clients) sound
        (fits (put_at s.cell p (some c)) (p ∷ s.clients) (c, put_at_self s.cell p (some c))
          (omega (arith, count-head p s.clients, f.1)))
        (λ q ne. count-tail p q s.clients ne)

  accepts-IsSafe : (fd : ℕ) → IsSafe (accepts p fd) s
  unfolding IsSafe perform
  accepts-IsSafe fd = elim (Bool-cases (stands_at absent (s.thread p))) [
    | inl e ↦ (
      accept_client p fd running s,
      rw e refl,
      accepted-IsSound fd running e (λ cell l a n. (a, n)),
    )
    | inr e ↦ (s, rw e refl, sound)
  ]

  strands-IsSafe : (fd : ℕ) → IsSafe (strands p fd) s
  unfolding IsSafe perform
  strands-IsSafe fd = elim (Bool-cases (stands_at absent (s.thread p))) [
    | inl e ↦ (
      accept_client p fd unstarted s,
      rw e refl,
      accepted-IsSound fd unstarted e (λ cell l a n. (a, n)),
    )
    | inr e ↦ (s, rw e refl, sound)
  ]

  Steps-IsSafe : (a : Action) (pc : Pc) → Steps s sound p a pc → IsSafe a s
  unfolding Steps IsSafe
  Steps-IsSafe a pc h = (h.0, h.1, h.2)

  works-IsSafe : (on : Bool) → IsSafe (works p on) s
  unfolding IsSafe perform work
  works-IsSafe on = elim (Bool-cases (stands_at running (s.thread p))) [
    | inl e ↦
        let f = at_pc s sound p running e in
        elim (Bool-cases (f.0.0.alive && on)) [
          | inl go ↦ (s, rw (e, f.0.1, go) refl, sound)
          | inr out ↦ Steps-IsSafe (works p on) leaving (leaves-Steps s sound p on f e out)
        ]
    | inr e ↦ (s, rw e refl, sound)
  ]

  abandons-IsSafe : IsSafe (abandons p) s
  unfolding IsSafe perform
  abandons-IsSafe = elim (Bool-cases (stands_at unstarted (s.thread p))) [
    | inl e ↦ Steps-IsSafe (abandons p) removing (abandons-Steps s sound p e)
    | inr e ↦ (s, rw e refl, sound)
  ]

  closes-IsSafe : IsSafe (closes p) s
  unfolding IsSafe perform
  closes-IsSafe = elim (Bool-cases (stands_at leaving (s.thread p))) [
    | inl e ↦ Steps-IsSafe (closes p) removing (closes-Steps s sound p e)
    | inr e ↦ (s, rw e refl, sound)
  ]

  unlinks-IsSafe : IsSafe (unlinks p) s
  unfolding IsSafe perform
  unlinks-IsSafe = elim (Bool-cases (stands_at removing (s.thread p))) [
    | inl e ↦ Steps-IsSafe (unlinks p) freeing (unlinks-Steps s sound p e)
    | inr e ↦ (s, rw e refl, sound)
  ]

  frees-IsSafe : IsSafe (frees p) s
  unfolding IsSafe perform
  frees-IsSafe = elim (Bool-cases (stands_at freeing (s.thread p))) [
    | inl e ↦ Steps-IsSafe (frees p) absent (frees-Steps s sound p e)
    | inr e ↦ (s, rw e refl, sound)
  ]

broadcasts-IsSafe :
    (s : World) (takes : ℕ → Bool)
    → IsSound s
    → AllTake takes s.cell s.clients
    → IsSafe (broadcasts takes) s
unfolding IsSafe perform
broadcasts-IsSafe s takes sound h = (s, rw (sweep-AllTake takes s.cell s.clients h) refl, sound)

cuts-IsSafe : (s : World) → IsSound s → IsSafe cuts s
unfolding IsSafe perform
cuts-IsSafe s sound =
    let r = shut_lem s.cell s.clients (IsSound-Listed s sound) in
    (
      record s { cell = r.0 },
      rw r.1 refl,
      record {
        fits = λ p.
            same-Fits (s.thread p) s.cell r.0 s.clients s.clients p (r.2 p) (λ e n. r.3 p n ∙ e)
              refl (sound.fits p);
      },
    )

detaches-IsSafe : (s : World) (p : ℕ) → IsSound s → Allocated s.cell p → IsSafe (detaches p) s
unfolding IsSafe perform
detaches-IsSafe s p sound there = (s, rw (there.1) refl, sound)

stops-IsSafe : (s : World) → IsSound s → s.clients ≡ [] → IsSafe stops s
unfolding IsSafe perform free_all
stops-IsSafe s sound none_left = (
  record s { clients = [] },
  rw (perform, none_left) refl,
  record {
    fits = λ p.
        same-Fits (s.thread p) s.cell s.cell s.clients [] p (λ a. a) (λ e n. e)
          (ap (count p) (sym none_left)) (sound.fits p);
  },
)

perform-IsSafe : (a : Action) (s : World) → IsSound s → Spares a s → IsSafe a s
perform-IsSafe (accepts p fd) s sound h = accepts-IsSafe s sound p fd
perform-IsSafe (works p on) s sound h = works-IsSafe s sound p on
perform-IsSafe (strands p fd) s sound h = strands-IsSafe s sound p fd
perform-IsSafe (abandons p) s sound h = abandons-IsSafe s sound p
perform-IsSafe (closes p) s sound h = closes-IsSafe s sound p
perform-IsSafe (unlinks p) s sound h = unlinks-IsSafe s sound p
perform-IsSafe (frees p) s sound h = frees-IsSafe s sound p
perform-IsSafe (broadcasts takes) s sound h = broadcasts-IsSafe s takes sound h
perform-IsSafe (detaches p) s sound h = detaches-IsSafe s p sound h
perform-IsSafe cuts s sound h = cuts-IsSafe s sound
perform-IsSafe stops s sound h = stops-IsSafe s sound h

-- Along a run: each action spares the clients in the world that the ones before it leave.
unfoldable pub Sparing : List Action → World → Type 0
unfolding perform
Sparing [] s = Unit {0}
Sparing (a ∷ later) s =
    Spares a s × elim (perform a s) [ fault ↦ Unit {0} | next t ↦ Sparing later t ]

-- From a sound state, when no broadcast of a run meets a client that is not alive or does not take the
-- text, the server is stopped only without clients, and each pthread_detach of accept_thread comes before
-- the thread has freed the client that it reads: whatever the order of the actions of all threads,
-- the run ends without a use after free, and in a sound state.
pub perform_all-IsSound :
    (later : List Action) (s : World)
    → IsSound s
    → Sparing later s
    → (t : World) × (perform_all later s ≡ next t) × IsSound t
unfolding perform_all IsSafe Sparing
perform_all-IsSound [] s sound h = (s, refl, sound)
perform_all-IsSound (a ∷ later) s sound h =
    let first = perform-IsSafe a s sound h.0 in
    let onward : Outcome → Type 0 = λ o. elim o [ fault ↦ Unit {0} | next t ↦ Sparing later t ] in
    let rest = perform_all-IsSound later first.0 first.2 (subst onward first.1 h.1) in
    (rest.0, rw (perform_all, first.1) rest.1, rest.2)
