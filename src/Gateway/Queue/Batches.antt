-- ===== src/Gateway/Queue/Batches.antt =====
-- What queue_pop_batch of src/core/telemetry_gateway.c does to the samples that the queue holds.
use telemetry_platform_testb.Base.{
  ◌>>=◌, ℕ, zero, suc, ◌^◌, ◌<◌, ◌≡◌, refl, ap, ◌∙◌, inl, inr, List, [], ◌∷◌, Option, none, some,
  arith, length, take, drop, ◌==◌, Bool-cases,
}
use telemetry_platform_testb.Gateway.Queue.{Node, Queue, unlink, pop_rounds, queue_pop_batch}
use telemetry_platform_testb.Gateway.Queue.Chain.{Chain, last_address, samples, Chain-update}
use telemetry_platform_testb.Gateway.Queue.Refine.{Holds, IsQueue, length-samples}

module _ {A : Type 0} where
  tail-unlink :
      (q : Queue A) (a : ℕ) (s : A) (next : Option ℕ) (ns : List (ℕ × A))
      → Chain q.cell next ns
      → q.q_tail ≡ last_address ((a, s) ∷ ns)
      → (unlink q a (record { s = s; next = next })).q_tail ≡ last_address ns
  unfolding unlink
  tail-unlink q a s next [] c tail = ground arith
  tail-unlink q a s next (m ∷ ns) c tail = ground (arith, c.1)

  unlink-Holds :
      (q : Queue A) (a : ℕ) (s : A) (ns : List (ℕ × A)) (h : Holds q ((a, s) ∷ ns))
      → length ns < 2 ^ 64
      → Holds (unlink q a (record { s = s; next = h.chain.0 })) ns
  unfolding unlink
  unlink-Holds q a s ns h room = record {
    chain = Chain-update q.cell a none h.chain.0 ns h.chain.3 h.chain.4;
    tail_is = tail-unlink q a s h.chain.0 ns h.chain.4 h.tail_is;
    len_is = omega (arith, h.len_is);
    below_max = omega (arith, h.len_is, h.below_max);
    owned = λ b apart. elim (Bool-cases (a == b)) [
      | inl same ↦ rw same
      | inr other ↦ rw other (h.owned b ((λ e. ground arith), apart))
    ];
  }

  record Popped (left : ℕ) (q : Queue A) (ns : List (ℕ × A)) : Type 0 where
    rest : Queue A
    returns : pop_rounds left q q.q_head ≡ some (take left (samples ns), rest)
    holds : Holds rest (drop left ns)
    same_max : rest.q_len_max ≡ q.q_len_max

  pop_rounds-Popped :
      (left : ℕ) (q : Queue A) (ns : List (ℕ × A))
      → Holds q ns
      → length ns < 2 ^ 64
      → Popped left q ns
  unfolding pop_rounds
  pop_rounds-Popped zero q ns h room = record {
    rest = q;
    returns = refl;
    holds = h;
    same_max = refl;
  }
  pop_rounds-Popped (suc left) q [] h room = record {
    rest = q;
    returns = ap (λ p. pop_rounds (suc left) q p) h.chain;
    holds = h;
    same_max = refl;
  }
  pop_rounds-Popped (suc left) q ((a, s) ∷ ns) h room =
      let node : Node A = record { s = s; next = h.chain.0 } in
      let later =
        pop_rounds-Popped left (unlink q a node) ns (unlink-Holds q a s ns h (omega arith))
          (omega arith) in
      record {
        rest = later.rest;
        returns =
            ap (λ p. pop_rounds (suc left) q p) h.chain.1
            ∙ ap
                (λ (c : Option (Node A)).
                  c >>= λ n. pop_rounds left (unlink q a n) n.next >>= λ b. some (n.s ∷ b.0, b.1))
                h.chain.2
            ∙ ap (λ b. b >>= λ c. some (s ∷ c.0, c.1)) later.returns;
        holds = later.holds;
        same_max = later.same_max;
      }

  samples-drop : (n : ℕ) (ns : List (ℕ × A)) → samples (drop n ns) ≡ drop n (samples ns)
  samples-drop zero ns = refl
  samples-drop (suc n) [] = refl
  samples-drop (suc n) ((a, s) ∷ ns) = samples-drop n ns

  -- A batch is the oldest samples, up to `max` of them, in their order, and they are gone from the
  -- queue.
  pub queue_pop_batch-IsQueue :
      (q : Queue A) (max : ℕ) (xs : List A)
      → IsQueue q xs
      → length xs < 2 ^ 64
      → (r : Queue A) × (queue_pop_batch q max ≡ some (take max xs, r))
        × IsQueue r (drop max xs)
        × (r.q_len_max ≡ q.q_len_max)
  unfolding queue_pop_batch
  queue_pop_batch-IsQueue q max xs v room =
      let popped =
        pop_rounds-Popped max q v.nodes v.holds
          (omega (arith, length-samples v.nodes, ap length v.contents)) in
      (
        popped.rest,
        popped.returns ∙ ap (λ ys. some (take max ys, popped.rest)) v.contents,
        record {
          nodes = drop max v.nodes;
          holds = popped.holds;
          contents = samples-drop max v.nodes ∙ ap (drop max) v.contents;
        },
        popped.same_max,
      )
