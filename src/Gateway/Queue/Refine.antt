-- ===== src/Gateway/Queue/Refine.antt =====
-- The linked queue of src/core/telemetry_gateway.c implements a first-in first-out list of samples.
use telemetry_platform_testb.Base.{
  ◌>>=◌, ℕ, suc, ◌+◌, ◌^◌, ◌≤◌, ◌<◌, ◌≡◌, ◌≢◌, refl, ap, sym, ◌∙◌, inl, inr, List, [], ◌∷◌, ◌++◌,
  none, some, arith, length, length-append, Option-cases,
}
use telemetry_platform_testb.Gateway.Queue.{Node, Queue, empty, update, link, appended, queue_push}
use telemetry_platform_testb.Gateway.Queue.Chain.{
  Apart, Chain, last_address, samples, samples-append, Chain-update, Apart-free, Chain-snoc,
  last_address-snoc, last_address-ne, Chain-last,
}

-- The queue's nodes, from the head to NULL, are these: the tail is the last of them, the counter
-- is their number, and no other node is allocated.
pub record Holds {A : Type 0} (q : Queue A) (ns : List (ℕ × A)) : Type 0 where
  pub chain : Chain q.cell q.q_head ns
  pub tail_is : q.q_tail ≡ last_address ns
  pub len_is : q.q_len ≡ length ns
  pub below_max : q.q_len ≤ q.q_len_max
  pub owned : (a : ℕ) → Apart a ns → q.cell a ≡ none

-- The queue holds these samples, oldest first.
pub record IsQueue {A : Type 0} (q : Queue A) (xs : List A) : Type 0 where
  pub nodes : List (ℕ × A)
  pub holds : Holds q nodes
  pub contents : samples nodes ≡ xs

module _ {A : Type 0} where
  pub empty-IsQueue : IsQueue {A = A} empty []
  unfolding empty
  empty-IsQueue = record {
    nodes = [];
    holds = record {
      chain = refl;
      tail_is = refl;
      len_is = refl;
      below_max = omega arith;
      owned = λ a out. refl;
    };
    contents = refl;
  }

  pub length-samples : (ns : List (ℕ × A)) → length (samples ns) ≡ length ns
  length-samples [] = refl
  length-samples ((a, s) ∷ ns) = ap suc (length-samples ns)

  Apart-snoc :
      (a b : ℕ) (s : A) (ns : List (ℕ × A)) → Apart a (ns ++ (b, s) ∷ []) → Apart a ns × (a ≢ b)
  Apart-snoc a b s [] out = (tt, out.0)
  Apart-snoc a b s ((c, u) ∷ ns) out =
      let rest = Apart-snoc a b s ns out.1 in ((out.0, rest.0), rest.1)

  last-nonempty : (ns : List (ℕ × A)) → last_address ns ≡ none → ns ≡ []
  last-nonempty [] e = refl
  last-nonempty ((a, s) ∷ []) e = cc
  last-nonempty ((a, s) ∷ n ∷ ns) e = cc (last-nonempty (n ∷ ns) e)

  -- Linking the new node makes it the end of the chain.
  record Linked (q : Queue A) (n : ℕ) (s : A) (ns : List (ℕ × A)) : Type 0 where
    out : Queue A
    returns : link q q.q_tail n ≡ some out
    chain : Chain out.cell out.q_head (ns ++ (n, s) ∷ [])
    owned : (a : ℕ) → Apart a (ns ++ (n, s) ∷ []) → out.cell a ≡ none
    same_len : out.q_len ≡ q.q_len
    same_max : out.q_len_max ≡ q.q_len_max

  link-Linked :
      (q : Queue A) (n : ℕ) (s : A) (ns : List (ℕ × A))
      → Chain q.cell q.q_head ns
      → q.q_tail ≡ last_address ns
      → q.cell n ≡ some (record { s = s; next = none })
      → Apart n ns
      → ((a : ℕ) → Apart a ns → a ≢ n → q.cell a ≡ none)
      → Linked q n s ns
  unfolding link
  link-Linked q n s [] c tail new out owned = record {
    out = record q { q_head = some n };
    returns = ap (λ t. link q t n) tail;
    chain = (none, refl, new, tt, refl);
    owned = λ a apart. owned a tt apart.0;
    same_len = refl;
    same_max = refl;
  }
  link-Linked q n s (m ∷ ns) c tail new out owned = elim (Option-cases q.q_tail) [
    | inl e ↦ absurd (cc (last-nonempty (m ∷ ns) (sym tail ∙ e)))
    | inr (t, e) ↦
        let found = Chain-last q.cell t q.q_head (m ∷ ns) (sym tail ∙ e) c in
        record {
          out = record q { cell = update q.cell t (some (record (found.0) { next = some n })) };
          returns = ap (λ t. link q t n) e ∙ rw (found.1, ◌>>=◌);
          chain =
              Chain-snoc q.cell t found.0 n s q.q_head (m ∷ ns) (sym tail ∙ e) found.1 new out c;
          owned = λ a apart.
              let split = Apart-snoc a n s (m ∷ ns) apart in
              let not_tail = last_address-ne a t (m ∷ ns) split.0 (sym tail ∙ e) in
              ground (arith, owned a split.0 split.1);
          same_len = refl;
          same_max = refl;
        }
  ]

  -- A push appends the sample, whatever the queue held, with no invalid access.
  pub queue_push-IsQueue :
      (q : Queue A) (n : ℕ) (s : A) (xs : List A)
      → IsQueue q xs
      → q.cell n ≡ none
      → length xs + 1 < 2 ^ 64
      → (r : Queue A) × (queue_push q (some n) s ≡ some r)
        × IsQueue r (xs ++ s ∷ [])
        × (q.q_len_max ≤ r.q_len_max)
  unfolding queue_push appended
  queue_push-IsQueue q n s xs v free room =
      let node : Node A = record { s = s; next = none } in
      let fresh : Queue A = record q { cell = update q.cell n (some node) } in
      let h = v.holds in
      let out = Apart-free q.cell n q.q_head v.nodes free h.chain in
      let linked =
        link-Linked fresh n s v.nodes
          (Chain-update q.cell n (some node) q.q_head v.nodes out h.chain) h.tail_is (ground arith)
          out (λ a apart ne. ground (arith, h.owned a apart)) in
      let count = length-samples v.nodes in
      let grown : linked.out.q_len + 1 < 2 ^ 64 =
        omega (arith, linked.same_len, h.len_is, count, ap length v.contents) in
      (
        appended linked.out n,
        rw (linked.returns, ◌>>=◌),
        record {
          nodes = v.nodes ++ (n, s) ∷ [];
          holds = record {
            chain = linked.chain;
            tail_is = sym (last_address-snoc n s v.nodes);
            len_is =
                omega
                  (arith, linked.same_len, h.len_is, length-append v.nodes ((n, s) ∷ []), grown);
            below_max = ground arith;
            owned = linked.owned;
          };
          contents = samples-append v.nodes ((n, s) ∷ []) ∙ ap (λ ys. ys ++ s ∷ []) v.contents;
        },
        ground (arith, linked.same_max),
      )

  pub queue_push-lost : (q : Queue A) (s : A) → queue_push q none s ≡ some q
  unfolding queue_push
  queue_push-lost q s = refl
