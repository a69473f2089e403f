-- ===== src/Gateway/Writer/Examples.antt =====
-- Rounds of the writer on a small database that refuses the sample 13.
use telemetry_platform_testb.Base.{
  Option, none, Bool-cases, inl, inr, ℕ, ◌+◌, ◌%◌, ◌^◌, ◌≡◌, refl, Bool, true, false, List, [], ◌∷◌,
  ◌++◌, some, arith, length, ◌==◌, if◌then◌else◌,
}
use telemetry_platform_testb.Gateway.Writer.{
  Database, WriterStats, insert_all, finish, broadcasts, count_batch, write_batch,
}
use telemetry_platform_testb.Gateway.Writer.Rounds.{
  Transactions, stored, strays, write_batch-atomic, unstored_batch_is_streamed,
}

-- The committed rows, and those of the transaction if there is one; the refusal ends it.
abbrev Table : Type 0
Table = List ℕ × Option (List ℕ)

abbrev add_row : ℕ → Table → Bool × Table
add_row s (rows, none) = (true, (rows ++ s ∷ [], none))
add_row s (rows, some new) = (true, (rows, some (new ++ s ∷ [])))

abbrev insert_unless_13 : ℕ → Table → Bool × Table
insert_unless_13 s d = if s == 13 then (false, (d.0, none)) else add_row s d

abbrev commit_all : Table → Bool × Table
commit_all (rows, none) = (false, (rows, none))
commit_all (rows, some new) = (true, (rows ++ new, none))

abbrev new_rows : Table → List ℕ
new_rows (rows, none) = []
new_rows (rows, some new) = new

abbrev has_transaction : Table → Bool
has_transaction (rows, none) = false
has_transaction (rows, some new) = true

abbrev table : Database ℕ
table = record {
  Db = Table;
  begin = λ d. (true, (d.0, some []));
  insert = insert_unless_13;
  commit = commit_all;
  rollback = λ d. (d.0, none);
}

inserted-rows : (s : ℕ) (d : Table) → has_transaction d ≡ true → (insert_unless_13 s d).1.0 ≡ d.0
inserted-rows s (rows, none) h = absurd cc
inserted-rows s (rows, some new) h = ground arith

inserted-open :
    (s : ℕ) (d : Table)
    → has_transaction d ≡ true
    → (insert_unless_13 s d).0 ≡ true
    → (has_transaction (insert_unless_13 s d).1 ≡ true)
      × (new_rows (insert_unless_13 s d).1 ≡ new_rows d ++ s ∷ [])
inserted-open s (rows, none) h k = absurd cc
inserted-open s (rows, some new) h k = elim (Bool-cases (s == 13)) [
  | inl refused_one ↦ absurd (ground arith)
  | inr fine ↦ rw fine (refl, refl)
]

inserted-alone :
    (s : ℕ) (d : Table)
    → has_transaction d ≡ false
    → (has_transaction (insert_unless_13 s d).1 ≡ false)
      × ((insert_unless_13 s d).1.0 ≡ (if (insert_unless_13 s d).0 then d.0 ++ s ∷ [] else d.0))
inserted-alone s (rows, none) h = elim (Bool-cases (s == 13)) [
  | inl refused_one ↦ rw refused_one (refl, refl)
  | inr fine ↦ rw fine (refl, refl)
]
inserted-alone s (rows, some new) h = absurd cc

committed-rows :
    (d : Table)
    → has_transaction d ≡ true
    → (commit_all d).1.0 ≡ (if (commit_all d).0 then d.0 ++ new_rows d else d.0)
committed-rows (rows, none) h = absurd cc
committed-rows (rows, some new) h = refl

table-Transactions : Transactions table
table-Transactions = record {
  rows = λ d. d.0;
  open_rows = new_rows;
  is_open = has_transaction;
  begin_rows = λ d. refl;
  begin_open = λ d h. (refl, refl);
  insert_rows = inserted-rows;
  insert_open = inserted-open;
  insert_alone = inserted-alone;
  commit_rows = committed-rows;
  rollback_rows = λ d. refl;
}

abbrev old : Table
old = (7 ∷ [], none)

abbrev no_stats : WriterStats
no_stats = record { db_rows = 0; commit_count = 0; commit_ns_sum = 0; commit_ns_max = 0 }

-- The transaction ends at 13, and 14 is stored by itself: a part of the batch.
refused : write_batch table (λ s. some s) old no_stats 100 150 (12 ∷ 13 ∷ 14 ∷ []) ≡ (
  (7 ∷ 14 ∷ [], none),
  record { db_rows = 3; commit_count = 1; commit_ns_sum = 50; commit_ns_max = 50 },
  12 ∷ 13 ∷ 14 ∷ [],
)
unfolding write_batch insert_all finish broadcasts count_batch
refused = refl

accepted :
    (write_batch table (λ s. some s) old no_stats 100 150 (12 ∷ 14 ∷ [])).0
    ≡ (7 ∷ 12 ∷ 14 ∷ [], none)
unfolding write_batch insert_all finish
accepted = refl

write_batch-atomic_example :
    (write_batch table (λ s. some s) old no_stats 100 150 (12 ∷ 13 ∷ 14 ∷ [])).0.0
    ≡ (7 ∷ [])
      ++ (if stored table table-Transactions old (12 ∷ 13 ∷ 14 ∷ [])
          then 12 ∷ 13 ∷ 14 ∷ []
          else strays table table-Transactions (12 ∷ 13 ∷ 14 ∷ []) ([] ++ 7 ∷ [], some []))
unfolding write_batch table-Transactions
write_batch-atomic_example =
    write_batch-atomic table table-Transactions (λ s. some s) old no_stats 100 150
      (12 ∷ 13 ∷ 14 ∷ [])

unstored_batch_is_streamed_example :
    let out = write_batch table (λ s. some s) old no_stats 100 150 (12 ∷ 13 ∷ 14 ∷ []) in
    (out.0.0 ≡ (7 ∷ []) ++ (14 ∷ []))
    × (out.2 ≡ broadcasts (λ s. some s) (12 ∷ 13 ∷ 14 ∷ []))
    × (out.1.db_rows ≡ (0 + length {A = ℕ} (12 ∷ 13 ∷ 14 ∷ [])) % 2 ^ 64)
unfolding insert_all write_batch table-Transactions
unstored_batch_is_streamed_example =
    unstored_batch_is_streamed table table-Transactions (λ s. some s) old no_stats 100 150 12
      (13 ∷ 14 ∷ []) refl refl
