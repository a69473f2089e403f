-- ===== src/Ws/Threads/Examples.antt =====
-- The threads of src/core/ws_server.c at two clients.
use telemetry_platform_testb.Base.{
  ◌++◌, ℕ, ◌≡◌, ◌≢◌, refl, arith, true, false, List, [], ◌∷◌, none, some,
}
use telemetry_platform_testb.Ws.Broadcast.{Client}
use telemetry_platform_testb.Ws.Broadcast.Delivery.{count}
use telemetry_platform_testb.Ws.Threads.{
  detaches, running, absent, World, put_at, fault, next, unlinked, sweep, shut, Action, accepts,
  works, closes, unlinks, frees, broadcasts, stops, cuts, accept_client, work, close_client,
  client_remove, free_client, perform, perform_all,
}
use telemetry_platform_testb.Ws.Threads.Lifetime.{IsSound, moved, count-tail}
use telemetry_platform_testb.Ws.Threads.Endings.{Sparing, perform_all-IsSound}
use telemetry_platform_testb.Ws.Threads.Closing.{closing}
use telemetry_platform_testb.Ws.Threads.Finish.{ending, ending-Ended, freed-fault}

-- No client, and one that is connected.
abbrev quiet : World
quiet = record { cell = λ p. none; clients = []; thread = λ p. absent }

abbrev viewer : Client
viewer = record { fd = some 5; alive = true }

abbrev one : World
one = record {
  cell = put_at (λ p. none) 1 (some viewer);
  clients = 1 ∷ [];
  thread = put_at (λ p. absent) 1 running;
}

quiet-IsSound : IsSound quiet
quiet-IsSound = record { fits = λ p. (refl, refl) }

one-IsSound : IsSound one
one-IsSound =
    moved quiet 1 running (some viewer) (1 ∷ []) quiet-IsSound ((viewer, refl), refl)
      (λ q ne. count-tail 1 q [] ne)

abbrev busy : List Action
busy =
    accepts 1 5
    ∷ accepts 2 6
    ∷ broadcasts (λ p. true)
    ∷ works 1 false
    ∷ broadcasts (λ p. true)
    ∷ closes 1
    ∷ cuts
    ∷ unlinks 1
    ∷ works 2 true
    ∷ frees 1
    ∷ accepts 1 7
    ∷ []

perform_all-IsSound_example : (t : World) × (perform_all busy quiet ≡ next t) × IsSound t
unfolding Sparing perform accept_client work close_client client_remove free_client sweep shut
    unlinked
perform_all-IsSound_example = perform_all-IsSound busy quiet quiet-IsSound (
  tt,
  (
    tt,
    (
      ((record { fd = some 6; alive = true }, refl, refl), ((viewer, refl, refl), tt)),
      (
        tt,
        (
          ((record { fd = some 6; alive = true }, refl, refl), ((viewer, refl, refl), tt)),
          (tt, (tt, (tt, (tt, (tt, (tt, tt)))))),
        ),
      ),
    ),
  ),
)

ending-Ended_example :
    (w : World) × (t : World) × (perform_all (closing running 1) one ≡ next w)
    × (w.cell 1 ≡ some (record { fd = none; alive = false }))
    × (perform_all (ending running 1) one ≡ next t)
    × IsSound t
    × (t.thread 1 ≡ absent)
    × (t.cell 1 ≡ none)
    × (count 1 t.clients ≡ 0)
    × ((q : ℕ) → 1 ≢ q → t.thread q ≡ one.thread q)
ending-Ended_example = ending-Ended one 1 one-IsSound

-- The client has left the network, and the text finds it; and the gateway stops under it.
freed-fault_example :
    (perform_all (broadcasts (λ p. false) ∷ ending running 1) one ≡ fault)
    × (perform_all (stops ∷ ending running 1) one ≡ fault)
freed-fault_example = freed-fault one (λ p. false) 1 viewer one-IsSound refl refl (omega arith)

-- accept_thread has started the thread and not detached it when the thread has run to its end.
detach_fault : perform_all (ending running 1 ++ detaches 1 ∷ []) one ≡ fault
unfolding perform_all perform work close_client client_remove unlinked free_client
detach_fault = refl
