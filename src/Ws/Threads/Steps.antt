-- ===== src/Ws/Threads/Steps.antt =====
-- What the actions of client_thread in src/core/ws_server.c do, one at a time.
use telemetry_platform_testb.Base.{
  ℕ, zero, suc, ◌≡◌, ◌≢◌, refl, ap, sym, subst, ◌∙◌, Bool, true, false, ◌&&◌, List, none, some,
  ==_iff, ℕ_discrete,
}
use telemetry_platform_testb.Ws.Broadcast.{Client}
use telemetry_platform_testb.Ws.Broadcast.Delivery.{count}
use telemetry_platform_testb.Ws.Threads.{
  Pc, running, leaving, removing, freeing, absent, unstarted, position, stands_at, World, put_at,
  next, Action, works, abandons, closes, unlinks, frees, work, abandon_client, close_client,
  client_remove, free_client, perform,
}
use telemetry_platform_testb.Ws.Threads.Lifetime.{
  Fits, IsSound, IsSound-Listed, same-Fits, put_at_self, put_at_ne, moved, unlinked_lem,
}

at_position : ℕ → Pc
at_position zero = running
at_position (suc zero) = leaving
at_position (suc (suc zero)) = removing
at_position (suc (suc (suc zero))) = freeing
at_position (suc (suc (suc (suc zero)))) = absent
at_position _ = unstarted

at_position-position : (a : Pc) → at_position (position a) ≡ a
unfolding at_position
at_position-position running = refl
at_position-position leaving = refl
at_position-position removing = refl
at_position-position freeing = refl
at_position-position absent = refl
at_position-position unstarted = refl

pub stands_at_lem : (a b : Pc) → stands_at a b ≡ true → b ≡ a
stands_at_lem a b e =
    let same : position a ≡ position b = (==_iff (position a) (position b)).0 e in
    sym (at_position-position b) ∙ ap at_position (sym same) ∙ at_position-position a

module _ (s : World) (sound : IsSound s) (p : ℕ) where
  pub at_pc : (pc : Pc) → stands_at pc (s.thread p) ≡ true → Fits pc s.cell s.clients p
  at_pc pc e =
      subst (λ x. Fits x s.cell s.clients p) (stands_at_lem pc (s.thread p) e) (sound.fits p)

  -- The thread moves on, and no memory changes.
  turned_in :
      (l : List ℕ) (pc : Pc)
      → Fits pc s.cell l p
      → ((q : ℕ) → p ≢ q → count q l ≡ count q s.clients)
      → IsSound (record s { clients = l; thread = put_at s.thread p pc })
  turned_in l pc own others = record {
    fits = λ q. elim (ℕ_discrete p q) [
      | yes e ↦
          subst (λ q. Fits (put_at s.thread p pc q) s.cell l q) e
            (rw (put_at_self s.thread p pc) own)
      | no ne ↦ rw (put_at_ne s.thread p pc q ne) (
          same-Fits (s.thread q) s.cell s.cell s.clients l q (λ a. a) (λ e n. e) (others q ne)
            (sound.fits q))
    ];
  }

  pub turned :
      (pc : Pc) → Fits pc s.cell s.clients p → IsSound (record s { thread = put_at s.thread p pc })
  turned pc own = turned_in s.clients pc own (λ q ne. refl)

  -- What each action of a thread that stands before it does to the threads.
  unfoldable pub Steps : Action → Pc → Type 0
  Steps a pc = (t : World) × (perform a s ≡ next t) × IsSound t × (t.thread ≡ put_at s.thread p pc)

  pub leaves-Steps :
      (on : Bool) (f : Fits running s.cell s.clients p)
      → stands_at running (s.thread p) ≡ true
      → (f.0.0.alive && on) ≡ false
      → Steps (works p on) leaving
  unfolding Steps perform work
  leaves-Steps on f e out = (
    record s { thread = put_at s.thread p leaving },
    rw (e, f.0.1, out) refl,
    turned leaving f,
    refl,
  )

  pub closes-Steps : stands_at leaving (s.thread p) ≡ true → Steps (closes p) removing
  unfolding Steps perform close_client
  closes-Steps e =
      let f = at_pc leaving e in
      let c : Client = record { fd = none; alive = false } in
      (
        record s { cell = put_at s.cell p (some c); thread = put_at s.thread p removing },
        rw (e, f.0.1) refl,
        moved s p removing (some c) s.clients sound ((c, put_at_self s.cell p (some c)), f.1)
            (λ q ne. refl),
        refl,
      )

  pub abandons-Steps : stands_at unstarted (s.thread p) ≡ true → Steps (abandons p) removing
  unfolding Steps perform abandon_client
  abandons-Steps e =
      let f = at_pc unstarted e in
      let c : Client = record f.0.0 { alive = false } in
      (
        record s { cell = put_at s.cell p (some c); thread = put_at s.thread p removing },
        rw (e, f.0.1) refl,
        moved s p removing (some c) s.clients sound ((c, put_at_self s.cell p (some c)), f.1)
            (λ q ne. refl),
        refl,
      )

  pub unlinks-Steps : stands_at removing (s.thread p) ≡ true → Steps (unlinks p) freeing
  unfolding Steps perform client_remove
  unlinks-Steps e =
      let f = at_pc removing e in
      let u = unlinked_lem s.cell p s.clients (IsSound-Listed s sound) in
      (
        record s { clients = u.0; thread = put_at s.thread p freeing },
        rw (e, u.1) refl,
        turned_in u.0 freeing (f.0, u.2) u.3,
        refl,
      )

  pub frees-Steps : stands_at freeing (s.thread p) ≡ true → Steps (frees p) absent
  unfolding Steps perform free_client
  frees-Steps e =
      let f = at_pc freeing e in
      (
        record s { cell = put_at s.cell p none; thread = put_at s.thread p absent },
        rw (e, f.0.1) refl,
        moved s p absent none s.clients sound (put_at_self s.cell p none, f.1) (λ q ne. refl),
        refl,
      )
