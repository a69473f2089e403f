-- ===== src/Ws/Threads/Closing.antt =====
-- How client_thread of src/core/ws_server.c, or accept_thread in its place, shuts its client.
use telemetry_platform_testb.Base.{
  ℕ, ◌≡◌, refl, ap, subst, ◌∙◌, Bool, true, false, ◌&&◌, List, [], ◌∷◌, none, some, ==_iff,
}
use telemetry_platform_testb.Ws.Broadcast.{Client}
use telemetry_platform_testb.Ws.Threads.{
  Pc, running, leaving, removing, freeing, absent, unstarted, put_at, position, stands_at, World,
  next, Action, works, abandons, closes, abandon_client, close_client, perform, perform_all,
}
use telemetry_platform_testb.Ws.Threads.Steps.{Steps, leaves-Steps}
use telemetry_platform_testb.Ws.Threads.Lifetime.{Fits, IsSound, put_at_self}

pub stands : (s : World) (p : ℕ) (pc : Pc) → s.thread p ≡ pc → stands_at pc (s.thread p) ≡ true
stands s p pc e = rw e ((==_iff (position pc) (position pc)).1 refl)

pub and_false : (b : Bool) → b && false ≡ false
and_false true = refl
and_false false = refl

-- The steps up to the close, and what they leave of the client: no descriptor and not alive. accept_thread
-- closes its own cfd, and leaves the client not alive.
abbrev pub closing : Pc → ℕ → List Action
closing running p = works p false ∷ closes p ∷ []
closing leaving p = closes p ∷ []
closing unstarted p = abandons p ∷ []
closing _ p = []

abbrev pub IsShut : Pc → World → ℕ → Type 0
IsShut running w p = w.cell p ≡ some (record { fd = none; alive = false })
IsShut leaving w p = w.cell p ≡ some (record { fd = none; alive = false })
IsShut unstarted w p = (c : Client) × (w.cell p ≡ some c) × (c.alive ≡ false)
IsShut _ w p = Unit {0}

abbrev pub Shuts : Pc → World → ℕ → Type 0
Shuts pc s p = (w : World) × (perform_all (closing pc p) s ≡ next w) × IsShut pc w p

leaving-Shuts : (p : ℕ) (s : World) → IsSound s → s.thread p ≡ leaving → Shuts leaving s p
unfolding perform_all perform close_client
leaving-Shuts p s sound e =
    let a = (subst (λ x. Fits x s.cell s.clients p) e (sound.fits p)).0 in
    (
      record s {
        cell = put_at s.cell p (some (record { fd = none; alive = false }));
        thread = put_at s.thread p removing;
      },
      rw (perform_all, stands s p leaving e, a.1) refl,
      put_at_self s.cell p (some (record { fd = none; alive = false })),
    )

running-Shuts : (p : ℕ) (s : World) → IsSound s → s.thread p ≡ running → Shuts running s p
unfolding Steps perform_all
running-Shuts p s sound e =
    let f = subst (λ x. Fits x s.cell s.clients p) e (sound.fits p) in
    let h = leaves-Steps s sound p false f (stands s p running e) (and_false f.0.0.alive) in
    let later = leaving-Shuts p h.0 h.2 (ap (λ f. f p) h.3 ∙ put_at_self s.thread p leaving) in
    (later.0, rw (perform_all, h.1) later.1, later.2)

unstarted-Shuts : (p : ℕ) (s : World) → IsSound s → s.thread p ≡ unstarted → Shuts unstarted s p
unfolding perform_all perform abandon_client
unstarted-Shuts p s sound e =
    let a = (subst (λ x. Fits x s.cell s.clients p) e (sound.fits p)).0 in
    (
      record s {
        cell = put_at s.cell p (some (record (a.0) { alive = false }));
        thread = put_at s.thread p removing;
      },
      rw (perform_all, stands s p unstarted e, a.1) refl,
      (record (a.0) { alive = false }, put_at_self s.cell p _, refl),
    )

pub closing-Shuts : (p : ℕ) (pc : Pc) (s : World) → IsSound s → s.thread p ≡ pc → Shuts pc s p
unfolding perform_all
closing-Shuts p running s = running-Shuts p s
closing-Shuts p leaving s = leaving-Shuts p s
closing-Shuts p unstarted s = unstarted-Shuts p s
closing-Shuts p removing s = λ sound e. (s, refl, tt)
closing-Shuts p freeing s = λ sound e. (s, refl, tt)
closing-Shuts p absent s = λ sound e. (s, refl, tt)
