-- ===== src/Gateway/Queue/Fifo.antt =====
-- The queue of src/core/telemetry_gateway.c under any schedule of the MQTT callback and the writer
-- thread.
use telemetry_platform_testb.Base.{
  ◌>>=◌, ℕ, ◌+◌, ◌^◌, ◌<◌, ◌≡◌, refl, ap, sym, ◌∙◌, List, [], ◌∷◌, ◌++◌, append-nil, append_assoc,
  Option, none, some, arith, length, take, drop, length-append, take-append-drop, length-drop,
}
use telemetry_platform_testb.Gateway.Queue.{Queue, empty, queue_push, queue_pop_batch}
use telemetry_platform_testb.Gateway.Queue.Refine.{
  IsQueue, empty-IsQueue, queue_push-lost, queue_push-IsQueue,
}
use telemetry_platform_testb.Gateway.Queue.Batches.{queue_pop_batch-IsQueue}

-- `pushes` has the address that calloc returned for the node; `loses` is a push for which calloc failed; `pops` is a batch of at most so many samples.
pub data Op (A : Type 0) : Type 0 where
  pushes : ℕ → A → Op A
  loses : A → Op A
  pops : ℕ → Op A

module _ {A : Type 0} where
  -- The samples that got a node, in the order of their pushes.
  abbrev pub accepted : List (Op A) → List A
  accepted [] = []
  accepted (pushes a s ∷ os) = s ∷ accepted os
  accepted (loses s ∷ os) = accepted os
  accepted (pops n ∷ os) = accepted os

  -- The samples that the batches delivered, and the queue at the end.
  pub run : Queue A → List (Op A) → Option (List A × Queue A)
  run q [] = some ([], q)
  run q (pushes a s ∷ os) = do r ← queue_push q (some a) s; run r os
  run q (loses s ∷ os) = do r ← queue_push q none s; run r os
  run q (pops max ∷ os) = do
    batch ← queue_pop_batch q max
    later ← run batch.1 os
    some (batch.0 ++ later.0, later.1)

  -- What calloc guarantees: the address of a new node is that of no allocated node at that moment.
  abbrev pub AllocatesFresh : Queue A → List (Op A) → Type 0
  AllocatesFresh q [] = Unit {0}
  AllocatesFresh q (pushes a s ∷ os) =
      (q.cell a ≡ none) × ((r : Queue A) → queue_push q (some a) s ≡ some r → AllocatesFresh r os)
  AllocatesFresh q (loses s ∷ os) = AllocatesFresh q os
  AllocatesFresh q (pops max ∷ os) =
      (batch : List A × Queue A) → queue_pop_batch q max ≡ some batch → AllocatesFresh batch.1 os

  -- What a schedule does to a queue that holds `xs`.
  pub record Delivers (xs : List A) (os : List (Op A)) (result : Option (List A × Queue A))
      : Type 0 where
    pub delivered : List A
    pub kept : List A
    pub final : Queue A
    pub returns : result ≡ some (delivered, final)
    pub holds : IsQueue final kept
    pub in_order : delivered ++ kept ≡ xs ++ accepted os

  pub run-Delivers :
      (q : Queue A) (xs : List A) (os : List (Op A))
      → IsQueue q xs
      → length xs + length os < 2 ^ 64
      → AllocatesFresh q os
      → Delivers xs os (run q os)
  unfolding run
  run-Delivers q xs [] v room fresh = record {
    delivered = [];
    kept = xs;
    final = q;
    returns = refl;
    holds = v;
    in_order = sym (append-nil xs);
  }
  run-Delivers q xs (pushes a s ∷ os) v room fresh =
      let pushed = queue_push-IsQueue q a s xs v fresh.0 (omega arith) in
      let later =
        run-Delivers pushed.0 (xs ++ s ∷ []) os pushed.2 (omega (arith, length-append xs (s ∷ [])))
          (fresh.1 pushed.0 pushed.1) in
      record {
        delivered = later.delivered;
        kept = later.kept;
        final = later.final;
        returns = rw (pushed.1, ◌>>=◌) later.returns;
        holds = later.holds;
        in_order = later.in_order ∙ append_assoc xs (s ∷ []) (accepted os);
      }
  run-Delivers q xs (loses s ∷ os) v room fresh =
      let later = run-Delivers q xs os v (omega arith) fresh in
      record {
        delivered = later.delivered;
        kept = later.kept;
        final = later.final;
        returns = rw (queue_push-lost q s, ◌>>=◌) later.returns;
        holds = later.holds;
        in_order = later.in_order;
      }
  run-Delivers q xs (pops max ∷ os) v room fresh =
      let popped = queue_pop_batch-IsQueue q max xs v (omega arith) in
      let later =
        run-Delivers popped.0 (drop max xs) os popped.2 (omega (arith, length-drop max xs))
          (fresh (take max xs, popped.0) popped.1) in
      record {
        delivered = take max xs ++ later.delivered;
        kept = later.kept;
        final = later.final;
        returns = rw (popped.1, ◌>>=◌) (rw (later.returns, ◌>>=◌));
        holds = later.holds;
        in_order =
            append_assoc (take max xs) later.delivered later.kept
            ∙ ap (λ ys. take max xs ++ ys) later.in_order
            ∙ sym (append_assoc (take max xs) (drop max xs) (accepted os))
            ∙ ap (λ ys. ys ++ accepted os) (take-append-drop max xs);
      }

  -- From the empty queue, under any schedule of pushes, failed allocations and batches of any
  -- size, no access is invalid, and what the batches delivered followed by what is still queued is
  -- exactly the accepted samples in the order of their pushes: nothing is lost, doubled or reordered.
  pub run-fifo :
      (os : List (Op A))
      → length os < 2 ^ 64
      → AllocatesFresh empty os
      → Delivers [] os (run empty os)
  run-fifo os room fresh = run-Delivers empty [] os empty-IsQueue (omega arith) fresh
