-- ===== src/Gateway/Queue/Examples.antt =====
-- The queue on a short schedule: the address of the first node is used again after its batch.
use telemetry_platform_testb.Base.{ℕ, ◌≤◌, ◌≡◌, refl, List, [], ◌∷◌, some, arith}
use telemetry_platform_testb.Gateway.Queue.{Queue, empty, queue_push, queue_pop_batch}
use telemetry_platform_testb.Gateway.Queue.Refine.{IsQueue, empty-IsQueue, queue_push-IsQueue}
use telemetry_platform_testb.Gateway.Queue.Fifo.{
  Op, pushes, loses, pops, run, AllocatesFresh, Delivers, run-fifo,
}

abbrev schedule : List (Op ℕ)
schedule = pushes 5 41 ∷ loses 42 ∷ pushes 6 43 ∷ pops 1 ∷ pushes 5 44 ∷ []

schedule-AllocatesFresh : AllocatesFresh empty schedule
unfolding empty queue_push queue_pop_batch
schedule-AllocatesFresh = (refl, λ r p. (ground arith, λ t q b e. (ground arith, λ u f. tt)))

run-fifo_example : Delivers [] schedule (run empty schedule)
run-fifo_example = run-fifo schedule (omega arith) schedule-AllocatesFresh

one_queued :
    (r : Queue ℕ) × (queue_push empty (some 5) 41 ≡ some r)
    × IsQueue r (41 ∷ [])
    × ((empty {A = ℕ}).q_len_max ≤ r.q_len_max)
unfolding empty
one_queued = queue_push-IsQueue empty 5 41 [] empty-IsQueue refl (omega arith)
