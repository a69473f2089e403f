-- ===== src/Gateway/Queue/Waits.antt =====
-- The empty queue of src/core/telemetry_gateway.c, and when queue_pop_batch stops waiting.
use telemetry_platform_testb.Base.{
  ℕ, ◌≡◌, refl, ap, sym, ◌∙◌, Bool, true, false, not, ◌&&◌, List, [], ◌∷◌, none, some,
}
use telemetry_platform_testb.Gateway.Queue.{Queue, wait_is_over}
use telemetry_platform_testb.Gateway.Queue.Chain.{Chain, samples}
use telemetry_platform_testb.Gateway.Queue.Refine.{IsQueue}

module _ {A : Type 0} where
  abbrev pub is_empty : List A → Bool
  is_empty [] = true
  is_empty (x ∷ xs) = false

  -- The wait goes on exactly while the gateway runs and nothing is queued.
  pub wait_is_over-IsQueue :
      (running : Bool) (q : Queue A) (xs : List A)
      → IsQueue q xs
      → wait_is_over running q ≡ not (running && is_empty xs)
  unfolding wait_is_over
  wait_is_over-IsQueue running q xs v =
      by_chain v.nodes v.holds.chain ∙ ap (λ ys. not (running && is_empty ys)) v.contents
    where
      by_chain :
          (ns : List (ℕ × A))
          → Chain q.cell q.q_head ns
          → not (running && elim q.q_head [ none ↦ true | some _ ↦ false ])
            ≡ not (running && is_empty (samples ns))
      by_chain [] c = rw c
      by_chain ((a, s) ∷ ns) c = rw (c.1)

  -- A queue that holds nothing holds no samples under any other account.
  pub IsQueue-empty : (q : Queue A) (xs : List A) → IsQueue q [] → IsQueue q xs → xs ≡ []
  IsQueue-empty q xs v w =
      sym w.contents ∙ by_chains v.nodes w.nodes v.holds.chain w.holds.chain v.contents
    where
      by_chains :
          (ns ms : List (ℕ × A))
          → Chain q.cell q.q_head ns
          → Chain q.cell q.q_head ms
          → samples ns ≡ []
          → samples ms ≡ []
      by_chains ns [] c d e = refl
      by_chains [] ((a, s) ∷ ms) c d e = cc (d.1)
      by_chains (n ∷ ns) ((a, s) ∷ ms) c d e = cc
