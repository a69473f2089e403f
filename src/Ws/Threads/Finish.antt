-- ===== src/Ws/Threads/Finish.antt =====
-- How client_thread of src/core/ws_server.c ends: alone, and behind a broadcast that freed its client.
use telemetry_platform_testb.Base.{
  ℕ, ◌<◌, ◌≡◌, ◌≢◌, inl, inr, refl, ap, subst, ◌∙◌, arith, Bool, false, ◌&&◌, List, [], ◌∷◌, Option,
  none, some, Option-cases,
}
use telemetry_platform_testb.Ws.Broadcast.{Client}
use telemetry_platform_testb.Ws.Broadcast.Delivery.{count}
use telemetry_platform_testb.Ws.Threads.{
  Pc, running, leaving, removing, freeing, absent, unstarted, World, fault, next, unlinked, Action,
  works, abandons, closes, unlinks, frees, broadcasts, stops, work, abandon_client, close_client,
  client_remove, free_client, perform, perform_all,
}
use telemetry_platform_testb.Ws.Threads.Steps.{
  Steps, leaves-Steps, abandons-Steps, closes-Steps, unlinks-Steps, frees-Steps,
}
use telemetry_platform_testb.Ws.Threads.Closing.{stands, and_false, closing, IsShut, closing-Shuts}
use telemetry_platform_testb.Ws.Threads.Freed.{broadcasts-cell, stops-cell}
use telemetry_platform_testb.Ws.Threads.Lifetime.{Fits, IsSound, put_at_self, put_at_ne}

-- What the thread has left to do, when its loop is not entered again, or accept_thread in its place.
abbrev pub ending : Pc → ℕ → List Action
ending running p = works p false ∷ closes p ∷ unlinks p ∷ frees p ∷ []
ending leaving p = closes p ∷ unlinks p ∷ frees p ∷ []
ending unstarted p = abandons p ∷ unlinks p ∷ frees p ∷ []
ending removing p = unlinks p ∷ frees p ∷ []
ending freeing p = frees p ∷ []
ending absent p = []

Ended : List Action → World → ℕ → Type 0
Ended todo s p =
    (t : World) × (perform_all todo s ≡ next t)
    × IsSound t
    × (t.thread p ≡ absent)
    × ((q : ℕ) → p ≢ q → t.thread q ≡ s.thread q)

-- One step of the thread, and then the rest.
next-Ended :
    (s : World) (p : ℕ) (a : Action) (pc : Pc) (todo : List Action) (sound : IsSound s)
    → Steps s sound p a pc
    → ((t : World) → IsSound t → t.thread p ≡ pc → Ended todo t p)
    → Ended (a ∷ todo) s p
unfolding Ended Steps perform_all
next-Ended s p a pc todo sound h rest =
    let here : h.0.thread p ≡ pc = ap (λ f. f p) h.3 ∙ put_at_self s.thread p pc in
    let r = rest h.0 h.2 here in
    (
      r.0,
      rw (perform_all, h.1) r.1,
      r.2,
      r.3,
      (λ q ne. r.4 q ne ∙ (ap (λ f. f q) h.3 ∙ put_at_ne s.thread p pc q ne)),
    )

module _ (p : ℕ) where
  absent-Ended : (s : World) → IsSound s → s.thread p ≡ absent → Ended [] s p
  unfolding Ended perform_all
  absent-Ended s sound e = (s, refl, sound, e, (λ q ne. refl))

  freeing-Ended : (s : World) → IsSound s → s.thread p ≡ freeing → Ended (ending freeing p) s p
  freeing-Ended s sound e =
      next-Ended s p (frees p) absent (ending absent p) sound
        (frees-Steps s sound p (stands s p freeing e)) absent-Ended

  removing-Ended : (s : World) → IsSound s → s.thread p ≡ removing → Ended (ending removing p) s p
  removing-Ended s sound e =
      next-Ended s p (unlinks p) freeing (ending freeing p) sound
        (unlinks-Steps s sound p (stands s p removing e)) freeing-Ended

  leaving-Ended : (s : World) → IsSound s → s.thread p ≡ leaving → Ended (ending leaving p) s p
  leaving-Ended s sound e =
      next-Ended s p (closes p) removing (ending removing p) sound
        (closes-Steps s sound p (stands s p leaving e)) removing-Ended

  unstarted-Ended :
      (s : World) → IsSound s → s.thread p ≡ unstarted → Ended (ending unstarted p) s p
  unstarted-Ended s sound e =
      next-Ended s p (abandons p) removing (ending removing p) sound
        (abandons-Steps s sound p (stands s p unstarted e)) removing-Ended

  running-Ended : (s : World) → IsSound s → s.thread p ≡ running → Ended (ending running p) s p
  running-Ended s sound e =
      let f = subst (λ x. Fits x s.cell s.clients p) e (sound.fits p) in
      next-Ended s p (works p false) leaving (ending leaving p) sound
        (leaves-Steps s sound p false f (stands s p running e) (and_false f.0.0.alive))
        leaving-Ended

  ending-Ended_at : (pc : Pc) (s : World) → IsSound s → s.thread p ≡ pc → Ended (ending pc p) s p
  ending-Ended_at running s = running-Ended s
  ending-Ended_at leaving s = leaving-Ended s
  ending-Ended_at unstarted s = unstarted-Ended s
  ending-Ended_at removing s = removing-Ended s
  ending-Ended_at freeing s = freeing-Ended s
  ending-Ended_at absent s = absent-Ended s

-- From a sound state, whatever the position of a thread: when its loop is not entered again, the steps it
-- has left, or accept_thread in its place if it could not be created, run without a fault. Those up to the
-- close leave the client without a descriptor and not alive, or only not alive if there is no thread; at the
-- end the client is in the list no more and its memory is free, and no other thread has moved.
pub ending-Ended :
    (s : World) (p : ℕ)
    → IsSound s
    → (w : World) × (t : World) × (perform_all (closing (s.thread p) p) s ≡ next w)
      × IsShut (s.thread p) w p
      × (perform_all (ending (s.thread p) p) s ≡ next t)
      × IsSound t
      × (t.thread p ≡ absent)
      × (t.cell p ≡ none)
      × (count p t.clients ≡ 0)
      × ((q : ℕ) → p ≢ q → t.thread q ≡ s.thread q)
unfolding Ended
ending-Ended s p sound =
    let r = ending-Ended_at p (s.thread p) s sound refl in
    let shut = closing-Shuts p (s.thread p) s sound refl in
    let gone = subst (λ x. Fits x r.0.cell r.0.clients p) r.3 (r.2.fits p) in
    (shut.0, r.0, shut.1, shut.2, r.1, r.2, r.3, gone.0, gone.1, r.4)

-- A thread whose client is gone faults on its next access.
module _ (p : ℕ) (t : World) (gone : t.cell p ≡ none) where
  frees-fault : t.thread p ≡ freeing → perform_all (ending freeing p) t ≡ fault
  unfolding perform_all perform free_client
  frees-fault e = rw (perform_all, stands t p freeing e, gone) refl

  closes-fault : t.thread p ≡ leaving → perform_all (ending leaving p) t ≡ fault
  unfolding perform_all perform close_client
  closes-fault e = rw (perform_all, stands t p leaving e, gone) refl

  abandons-fault : t.thread p ≡ unstarted → perform_all (ending unstarted p) t ≡ fault
  unfolding perform_all perform abandon_client
  abandons-fault e = rw (perform_all, stands t p unstarted e, gone) refl

  works-fault : t.thread p ≡ running → perform_all (ending running p) t ≡ fault
  unfolding perform_all perform work
  works-fault e = rw (perform_all, stands t p running e, gone) refl

  unlinks-fault : t.thread p ≡ removing → perform_all (ending removing p) t ≡ fault
  unfolding perform_all perform client_remove free_client
  unlinks-fault e = elim (Option-cases (unlinked t.cell p t.clients)) [
    | inl n ↦ rw (perform_all, stands t p removing e, n) refl
    | inr l ↦
        rw (perform_all, stands t p removing e, l.1)
          (rw (put_at_self t.thread p freeing, gone) refl)
  ]

-- A client in the list belongs to a thread that is not behind client_remove.
ending_fault :
    (pc : Pc) (p : ℕ) (cell : ℕ → Option Client) (l : List ℕ) (t : World)
    → Fits pc cell l p
    → 0 < count p l
    → t.cell p ≡ none
    → t.thread p ≡ pc
    → perform_all (ending pc p) t ≡ fault
ending_fault running p cell l t f listed gone e = works-fault p t gone e
ending_fault leaving p cell l t f listed gone e = closes-fault p t gone e
ending_fault unstarted p cell l t f listed gone e = abandons-fault p t gone e
ending_fault removing p cell l t f listed gone e = unlinks-fault p t gone e
ending_fault freeing p cell l t f listed gone e = absurd (omega arith)
ending_fault absent p cell l t f listed gone e = absurd (omega arith)

-- From a sound state, at a client in the list: when a broadcast meets it not alive, or when its text send
-- does not take it, the broadcast frees it under its thread, and so does the stop of the server in any
-- case: the steps that the thread has left end in a use after free.
pub freed-fault :
    (s : World) (takes : ℕ → Bool) (p : ℕ) (c : Client)
    → IsSound s
    → s.cell p ≡ some c
    → (c.alive && takes p) ≡ false
    → 0 < count p s.clients
    → (perform_all (broadcasts takes ∷ ending (s.thread p) p) s ≡ fault)
      × (perform_all (stops ∷ ending (s.thread p) p) s ≡ fault)
unfolding perform_all
freed-fault s takes p c sound cell_p refused listed =
    let after = λ (t : World) (gone : t.cell p ≡ none) (same : t.thread ≡ s.thread).
      ending_fault (s.thread p) p s.cell s.clients t (sound.fits p) listed gone
        (ap (λ f. f p) same) in
    let b = broadcasts-cell s takes p c sound cell_p refused listed in
    let e = stops-cell s p sound listed in
    (rw (perform_all, b.1) (after b.0 b.2 b.3), rw (perform_all, e.1) (after e.0 e.2 e.3))
