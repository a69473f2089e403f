-- ===== src/Gateway/Queue.antt =====
-- The queue of src/core/telemetry_gateway.c: qnode_t, queue_push and queue_pop_batch, as a linked
-- list on an explicit heap. Both run with q_mu held. A pointer is an address or NULL (none); a read
-- through NULL or a freed node is undefined in C, and makes the result none here. The address that
-- calloc returns is an argument, none where it fails.
pub mod Chain
pub mod Refine
pub mod Batches
pub mod Waits
pub mod Fifo
mod Examples
use telemetry_platform_testb.Base.{
  ◌>>=◌, ℕ, zero, suc, ◌+◌, ◌-◌, ◌%◌, ◌^◌, Bool, true, false, not, ◌&&◌, List, [], ◌∷◌, Option,
  none, some, ltb, ◌==◌, if◌then◌else◌,
}

-- qnode_t.
pub record Node (A : Type 0) : Type 0 where
  pub s : A
  pub next : Option ℕ

-- The queue's fields of struct telemetry_gateway, and the heap of its nodes.
pub record Queue (A : Type 0) : Type 0 where
  pub cell : ℕ → Option (Node A)
  pub q_head : Option ℕ
  pub q_tail : Option ℕ
  pub q_len : ℕ
  pub q_len_max : ℕ

module _ {A : Type 0} where
  unfoldable pub empty : Queue A
  empty = record { cell = λ a. none; q_head = none; q_tail = none; q_len = 0; q_len_max = 0 }

  abbrev pub update : (ℕ → Option (Node A)) → ℕ → Option (Node A) → ℕ → Option (Node A)
  update cell p n a = if p == a then n else cell a

  -- `if(g->q_tail) g->q_tail->next = n; else g->q_head = n;`
  pub link : Queue A → Option ℕ → ℕ → Option (Queue A)
  link q none n = some (record q { q_head = some n })
  link q (some t) n = do
    last ← q.cell t
    some (record q { cell = update q.cell t (some (record last { next = some n })) })

  -- The new node becomes the tail, and is counted.
  pub appended : Queue A → ℕ → Queue A
  appended q n =
      let len : ℕ = (q.q_len + 1) % 2 ^ 64 in
      record q {
        q_tail = some n;
        q_len = len;
        q_len_max = if ltb q.q_len_max len then len else q.q_len_max;
      }

  -- Without a node the sample is dropped (and its raw copy freed).
  pub queue_push : Queue A → Option ℕ → A → Option (Queue A)
  unfolding link appended
  queue_push q none s = some q
  queue_push q (some n) s = do
    linked ←
        link (record q { cell = update q.cell n (some (record { s = s; next = none })) }) q.q_tail n
    some (appended linked n)

  -- pthread_cond_wait is left when this holds.
  unfoldable pub wait_is_over : Bool → Queue A → Bool
  wait_is_over running q = not (running && elim q.q_head [ none ↦ true | some _ ↦ false ])

  -- One round of the second loop at the node `p`: unlink, count, free.
  pub unlink : Queue A → ℕ → Node A → Queue A
  unlink q p node = record q {
    cell = update q.cell p none;
    q_head = node.next;
    q_tail = elim node.next [ none ↦ none | some _ ↦ q.q_tail ];
    q_len = (q.q_len + 2 ^ 64 - 1) % 2 ^ 64;
  }

  -- `while(g->q_head && n < max)`, with `left` = max - n. The batch read is in the order of `out`.
  pub pop_rounds : ℕ → Queue A → Option ℕ → Option (List A × Queue A)
  unfolding unlink
  pop_rounds zero q head = some ([], q)
  pop_rounds (suc left) q none = some ([], q)
  pop_rounds (suc left) q (some p) = do
    node ← q.cell p
    batch ← pop_rounds left (unlink q p node) node.next
    some (node.s ∷ batch.0, batch.1)

  -- queue_pop_batch after the wait.
  pub queue_pop_batch : Queue A → ℕ → Option (List A × Queue A)
  unfolding pop_rounds
  queue_pop_batch q max = pop_rounds max q q.q_head
