-- ===== src/Gateway/Writer/Rounds.antt =====
-- What a round of writer_thread (src/core/telemetry_gateway.c) does to the table, the counters and
-- the stream, given what SQLite documents of transactions.
use telemetry_platform_testb.Base.{
  ◌>>=◌, ℕ, ◌+◌, ◌%◌, ◌^◌, ◌≤◌, ◌<◌, ◌≡◌, refl, ap, sym, ◌∙◌, Bool, true, false, ◌&&◌, List, [],
  ◌∷◌, ◌++◌, append-nil, append_assoc, Option, some, arith, length, take, drop, if◌then◌else◌,
  Bool-cases, inl, inr,
}
use telemetry_platform_testb.Gateway.Queue.{Queue}
use telemetry_platform_testb.Gateway.Queue.Refine.{IsQueue}
use telemetry_platform_testb.Gateway.Queue.Batches.{queue_pop_batch-IsQueue}
use telemetry_platform_testb.Gateway.Writer.{
  Database, WriterStats, count_batch, insert_all, finish, broadcasts, write_batch, writer_round,
}

-- What SQLite documents of one connection: `rows` is the committed table, `open_rows` the rows of the
-- open transaction, and `is_open` whether there is one (sqlite3_get_autocommit is 0). A statement that
-- fails may end the transaction, which SQLite then rolls back; an insert outside a transaction is
-- committed by itself.
pub record Transactions {S : Type 0} (db : Database S) : Type 0 where
  pub rows : db.Db → List S
  pub open_rows : db.Db → List S
  pub is_open : db.Db → Bool
  pub begin_rows : (d : db.Db) → rows (db.begin d).1 ≡ rows d
  pub begin_open :
      (d : db.Db)
      → (db.begin d).0 ≡ true
      → (is_open (db.begin d).1 ≡ true) × (open_rows (db.begin d).1 ≡ [])
  pub insert_rows : (s : S) (d : db.Db) → is_open d ≡ true → rows (db.insert s d).1 ≡ rows d
  pub insert_open :
      (s : S) (d : db.Db)
      → is_open d ≡ true
      → (db.insert s d).0 ≡ true
      → (is_open (db.insert s d).1 ≡ true) × (open_rows (db.insert s d).1 ≡ open_rows d ++ s ∷ [])
  pub insert_alone :
      (s : S) (d : db.Db)
      → is_open d ≡ false
      → (is_open (db.insert s d).1 ≡ false)
        × (rows (db.insert s d).1 ≡ (if (db.insert s d).0 then rows d ++ s ∷ [] else rows d))
  pub commit_rows :
      (d : db.Db)
      → is_open d ≡ true
      → rows (db.commit d).1 ≡ (if (db.commit d).0 then rows d ++ open_rows d else rows d)
  pub rollback_rows : (d : db.Db) → rows (db.rollback d) ≡ rows d

-- A round as its answers tell, apart from the code: whether every insert of the batch succeeded, the
-- connection behind the inserts, and the connection that the round leaves.
module _ {S : Type 0} (db : Database S) where
  open db use {Db, begin, insert, commit, rollback}

  abbrev pub all_in : List S → Db → Bool
  all_in [] d = true
  all_in (s ∷ ss) d = (insert s d).0 && all_in ss (insert s d).1

  abbrev pub fed : List S → Db → Db
  fed [] d = d
  fed (s ∷ ss) d = fed ss (insert s d).1

  abbrev pub left_by : Db → List S → Db
  left_by d [] = d
  left_by d (s ∷ ss) =
      let inside = (begin d).1 in
      let behind = fed (s ∷ ss) inside in
      if (begin d).0
      then (if all_in (s ∷ ss) inside then (commit behind).1 else rollback behind)
      else inside

module _ {S : Type 0} (db : Database S) (t : Transactions db) where
  open db use {Db, begin, insert, commit}
  open t use {
    rows, open_rows, is_open, begin_rows, begin_open, insert_rows, insert_open, insert_alone,
    commit_rows, rollback_rows,
  }

  -- The samples of a batch that are inserted when SQLite has already ended the transaction.
  abbrev pub strays : List S → Db → List S
  strays [] d = []
  strays (s ∷ ss) d =
      (if is_open d then [] else (if (insert s d).0 then s ∷ [] else []))
      ++ strays ss (insert s d).1

  -- Whether the whole batch was stored: the three tests that the round passes through.
  abbrev pub stored : Db → List S → Bool
  stored d ss =
      let inside = (begin d).1 in
      (begin d).0 && all_in db ss inside && (commit (fed db ss inside)).0

  -- What a batch adds to the table, by the answers.
  abbrev pub gained : Db → List S → List S
  gained d ss = if stored d ss then ss else (if (begin d).0 then strays ss (begin d).1 else [])

  insert_all-fed :
      (ok : Bool) (ss : List S) (d : Db)
      → insert_all db ok ss d ≡ (ok && all_in db ss d, fed db ss d)
  unfolding insert_all
  insert_all-fed true [] d = refl
  insert_all-fed false [] d = refl
  insert_all-fed true (s ∷ ss) d = insert_all-fed (insert s d).0 ss (insert s d).1
  insert_all-fed false (s ∷ ss) d = insert_all-fed false ss (insert s d).1

  -- What the inserts add to the committed table.
  fed-rows : (ss : List S) (d : Db) → rows (fed db ss d) ≡ rows d ++ strays ss d
  fed-rows [] d = sym (append-nil (rows d))
  fed-rows (s ∷ ss) d = elim (Bool-cases (is_open d)) [
    | inl inside ↦
        fed-rows ss (insert s d).1
        ∙ ap (λ r. r ++ strays ss (insert s d).1) (insert_rows s d inside)
        ∙ rw inside refl
    | inr alone ↦
        fed-rows ss (insert s d).1
        ∙ ap (λ r. r ++ strays ss (insert s d).1) ((insert_alone s d alone).1)
        ∙ rw alone (ground (arith, append_assoc (rows d) (s ∷ []) (strays ss (insert s d).1)))
  ]

  -- Inserts that all succeed in a transaction leave it open, with the samples in it.
  fed-open :
      (ss : List S) (d : Db)
      → is_open d ≡ true
      → all_in db ss d ≡ true
      → (is_open (fed db ss d) ≡ true)
        × (rows (fed db ss d) ≡ rows d)
        × (open_rows (fed db ss d) ≡ open_rows d ++ ss)
        × (strays ss d ≡ [])
  fed-open [] d inside all = (inside, refl, sym (append-nil (open_rows d)), refl)
  fed-open (s ∷ ss) d inside all =
      let here : (insert s d).0 ≡ true = ground arith in
      let next = insert_open s d inside here in
      let rest = fed-open ss (insert s d).1 next.0 (ground arith) in
      (
        rest.0,
        rest.1 ∙ insert_rows s d inside,
        rest.2 ∙ ap (λ r. r ++ ss) next.1 ∙ append_assoc (open_rows d) (s ∷ []) ss,
        rw inside rest.3,
      )

module _ {S J : Type 0} (to_json : S → Option J) where
  pub broadcasts-append :
      (xs ys : List S)
      → broadcasts to_json (xs ++ ys) ≡ broadcasts to_json xs ++ broadcasts to_json ys
  unfolding broadcasts
  broadcasts-append [] ys = refl
  broadcasts-append (x ∷ xs) ys = ground (arith, broadcasts-append xs ys)

module _ {S J : Type 0} (db : Database S) (t : Transactions db) (to_json : S → Option J) where
  open db use {Db, begin, commit, rollback}
  open t use {rows, open_rows, begin_rows, begin_open, commit_rows, rollback_rows}

  -- The connection that a round leaves is the one that its answers tell.
  pub write_batch-left_by :
      (d : Db) (g : WriterStats) (t0 t1 : ℕ) (ss : List S)
      → (write_batch db to_json d g t0 t1 ss).0 ≡ left_by db d ss
  unfolding write_batch finish
  write_batch-left_by d g t0 t1 [] = refl
  write_batch-left_by d g t0 t1 (s ∷ ss) =
      let inside = (begin d).1 in rw (insert_all-fed db t true (s ∷ ss) inside) (ground arith)

  left_by-gained : (d : Db) (ss : List S) → rows (left_by db d ss) ≡ rows d ++ gained db t d ss
  left_by-gained d [] = ground (arith, append-nil (rows d))
  left_by-gained d (s ∷ ss) =
      let inside = (begin d).1 in
      let all = s ∷ ss in
      let behind = fed db all inside in
      let none = append-nil (rows d) in
      let grown = fed-rows db t all inside in
      elim (Bool-cases (begin d).0) [
        | inr failed ↦ rw failed (begin_rows d ∙ sym none)
        | inl opened ↦
            let start = begin_open d opened in
            elim (Bool-cases (all_in db all inside)) [
              | inl every ↦
                  let f = fed-open db t all inside start.0 every in
                  let c = commit_rows behind f.0 in
                  rw opened (ground (arith, every, c, f, start, begin_rows d, none))
              | inr some_failed ↦
                  rw opened (ground (arith, some_failed, rollback_rows behind, grown, begin_rows d))
            ]
      ]

  -- Whatever SQLite answers, and also where it ends the transaction itself: a round stores its batch
  -- whole and in order, exactly when BEGIN, every insert and COMMIT succeeded. Otherwise it adds
  -- nothing but the samples of the batch, in order, that it went on to insert successfully after
  -- SQLite had ended the transaction.
  pub write_batch-atomic :
      (d : Db) (g : WriterStats) (t0 t1 : ℕ) (ss : List S)
      → rows (write_batch db to_json d g t0 t1 ss).0
        ≡ rows d
          ++ (if stored db t d ss
              then ss
              else (if (begin d).0 then strays db t ss (begin d).1 else []))
  write_batch-atomic d g t0 t1 ss = ap rows (write_batch-left_by d g t0 t1 ss) ∙ left_by-gained d ss

  pub write_batch-nil :
      (d : Db) (g : WriterStats) (t0 t1 : ℕ) → write_batch db to_json d g t0 t1 [] ≡ (d, g, [])
  unfolding write_batch
  write_batch-nil d g t0 t1 = refl

  -- A round whose BEGIN fails drops its batch: nothing is counted or broadcast. Any other round
  -- counts every sample of the batch as a row and broadcasts every sample, whatever became of the
  -- transaction.
  pub write_batch-streams :
      (d : Db) (g : WriterStats) (t0 t1 : ℕ) (s : S) (ss : List S)
      → let out = write_batch db to_json d g t0 t1 (s ∷ ss) in
        ((begin d).0 ≡ false → (out.1 ≡ g) × (out.2 ≡ []))
        × ((begin d).0 ≡ true
            → (out.1.db_rows ≡ (g.db_rows + length (s ∷ ss)) % 2 ^ 64)
              × (out.1.commit_count ≡ (g.commit_count + 1) % 2 ^ 64)
              × (g.commit_ns_max ≤ out.1.commit_ns_max)
              × (out.2 ≡ broadcasts to_json (s ∷ ss)))
  unfolding write_batch count_batch
  write_batch-streams d g t0 t1 s ss = (λ h. ground arith, λ h. ground arith)

  -- When BEGIN succeeds and an insert or COMMIT fails, the table has no more of the batch than what was
  -- inserted after SQLite had ended the transaction itself, and yet the whole batch is counted in
  -- db_rows and broadcast: the stream then shows samples that the history never will.
  pub unstored_batch_is_streamed :
      (d : Db) (g : WriterStats) (t0 t1 : ℕ) (s : S) (ss : List S)
      → (begin d).0 ≡ true
      → stored db t d (s ∷ ss) ≡ false
      → let out = write_batch db to_json d g t0 t1 (s ∷ ss) in
        (rows out.0 ≡ rows d ++ strays db t (s ∷ ss) (begin d).1)
        × (out.2 ≡ broadcasts to_json (s ∷ ss))
        × (out.1.db_rows ≡ (g.db_rows + length (s ∷ ss)) % 2 ^ 64)
  unstored_batch_is_streamed d g t0 t1 s ss opened failed =
      let streams = (write_batch-streams d g t0 t1 s ss).1 opened in
      (write_batch-atomic d g t0 t1 (s ∷ ss) ∙ rw (failed, opened) refl, streams.3, streams.0)

  -- A round takes the oldest queued samples, and stores of them what its answers tell: what it took
  -- and what stays queued are the samples that were queued, in order.
  pub writer_round-atomic :
      (q : Queue S) (d : Db) (g : WriterStats) (max t0 t1 : ℕ) (xs : List S)
      → IsQueue q xs
      → length xs < 2 ^ 64
      → (q' : Queue S) × (out : Db × WriterStats × List J) × (writer_round db to_json q d g max t0
            t1
          ≡ some (q', out))
        × IsQueue q' (drop max xs)
        × (rows out.0 ≡ rows d ++ gained db t d (take max xs))
  unfolding writer_round
  writer_round-atomic q d g max t0 t1 xs v room =
      let popped = queue_pop_batch-IsQueue q max xs v room in
      (
        popped.0,
        write_batch db to_json d g t0 t1 (take max xs),
        rw (popped.1, ◌>>=◌),
        popped.2,
        write_batch-atomic d g t0 t1 (take max xs),
      )
