-- ===== src/Gateway/Writer.antt =====
-- writer_thread of src/core/telemetry_gateway.c: one round stores a batch in a transaction, counts it
-- and broadcasts it. SQLite, the clock, the JSON text and the WebSocket server are parameters.
pub mod Rounds
mod Examples
use telemetry_platform_testb.Base.{
  ◌>>=◌, ℕ, zero, suc, ◌+◌, ◌-◌, ◌%◌, ◌^◌, Bool, true, false, ◌&&◌, List, [], ◌∷◌, Option, none,
  some, ltb, length, if◌then◌else◌,
}
use telemetry_platform_testb.Base.Int.{ℤ, pos, ltb_ℤ, pos_part}
use telemetry_platform_testb.Gateway.Queue.{Queue, queue_pop_batch}

-- A database connection: `begin`, `insert` and `commit` also tell whether they succeeded.
-- db_writer_begin, db_writer_insert_state, db_writer_commit, and the ROLLBACK whose result is ignored.
pub record Database (S : Type 0) : Type 1 where
  pub Db : Type 0
  pub begin : Db → Bool × Db
  pub insert : S → Db → Bool × Db
  pub commit : Db → Bool × Db
  pub rollback : Db → Db

-- The statistics of struct telemetry_gateway that the writer keeps. The times are sums of elapsed
-- nanoseconds, far below 2^63.
pub record WriterStats : Type 0 where
  pub db_rows : ℕ
  pub commit_count : ℕ
  pub commit_ns_sum : ℕ
  pub commit_ns_max : ℕ

-- `(g->batch_size > 0) ? g->batch_size : 50`, or one where the batch could not be allocated.
pub batch_limit : ℤ → Bool → ℕ
batch_limit batch_size allocated =
    if allocated then (if ltb_ℤ (pos 0) batch_size then pos_part batch_size else 50) else 1

-- `t1 > t0 ? t1 - t0 : 0`
abbrev pub elapsed : ℕ → ℕ → ℕ
elapsed t0 t1 = if ltb t0 t1 then t1 - t0 else 0

-- The update under stats_mu.
pub count_batch : WriterStats → ℕ → ℕ → WriterStats
count_batch g n dt = record {
  db_rows = (g.db_rows + n) % 2 ^ 64;
  commit_count = (g.commit_count + 1) % 2 ^ 64;
  commit_ns_sum = g.commit_ns_sum + dt;
  commit_ns_max = if ltb g.commit_ns_max dt then dt else g.commit_ns_max;
}

module _ {S : Type 0} (db : Database S) where
  open db use {Db, insert, commit, rollback}

  -- `for(…) if(db_writer_insert_state(…) != 0) ok = 0;`: every sample is tried.
  pub insert_all : Bool → List S → Db → Bool × Db
  insert_all ok [] d = (ok, d)
  insert_all ok (s ∷ ss) d = let r = insert s d in insert_all (ok && r.0) ss r.1

  -- COMMIT if every insert succeeded, and ROLLBACK otherwise; both results are ignored.
  pub finish : Bool × Db → Db
  finish (true, d) = (commit d).1
  finish (false, d) = rollback d

module _ {S J : Type 0} (to_json : S → Option J) where
  -- The broadcasts, in the order of the batch; a sample without a JSON text is skipped.
  unfoldable pub broadcasts : List S → List J
  broadcasts [] = []
  broadcasts (s ∷ ss) =
      let rest = broadcasts ss in elim (to_json s) [ none ↦ rest | some j ↦ j ∷ rest ]

module _ {S J : Type 0} (db : Database S) (to_json : S → Option J) where
  open db use {Db, begin}

  -- One round on a batch, `t0` and `t1` being the clock before and after the transaction: the
  -- connection, the statistics and the messages broadcast after it.
  pub write_batch : Db → WriterStats → ℕ → ℕ → List S → Db × WriterStats × List J
  write_batch d g t0 t1 [] = (d, g, [])
  write_batch d g t0 t1 (s ∷ ss) =
      let opened = begin d in
      if opened.0
      then (
        finish db (insert_all db true (s ∷ ss) opened.1),
        count_batch g (length (s ∷ ss)) (elapsed t0 t1),
        broadcasts to_json (s ∷ ss),
      )
      else (opened.1, g, [])

  -- queue_pop_batch and the round on what it took.
  pub writer_round :
      Queue S → Db → WriterStats → ℕ → ℕ → ℕ → Option (Queue S × (Db × WriterStats × List J))
  unfolding write_batch
  writer_round q d g max t0 t1 = do
    batch ← queue_pop_batch q max
    some (batch.1, write_batch d g t0 t1 batch.0)
