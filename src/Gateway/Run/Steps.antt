-- ===== src/Gateway/Run/Steps.antt =====
-- What each step of the gateway of src/core/telemetry_gateway.c does to the account of its samples.
use telemetry_platform_testb.Base.{
  ◌>>=◌, ℕ, ◌+◌, ◌^◌, ◌<◌, ◌≡◌, refl, ap, sym, ◌∙◌, Bool, true, false, Bool-cases, inl, inr, List,
  [], ◌∷◌, ◌++◌, append_assoc, Option, some, arith, length, take, drop, length-append,
  take-append-drop,
}
use telemetry_platform_testb.Types.{TelemetryState}
use telemetry_platform_testb.Gateway.Queue.{Queue, wait_is_over}
use telemetry_platform_testb.Gateway.Queue.Refine.{IsQueue}
use telemetry_platform_testb.Gateway.Queue.Batches.{queue_pop_batch-IsQueue}
use telemetry_platform_testb.Gateway.Message.{Intake}
use telemetry_platform_testb.Gateway.Writer.{Database, WriterStats, broadcasts, write_batch}
use telemetry_platform_testb.Gateway.Writer.Rounds.{
  Transactions, left_by, gained, write_batch-left_by, write_batch-atomic, write_batch-nil,
  write_batch-streams, broadcasts-append,
}
use telemetry_platform_testb.Gateway.Run.{
  Stand, testing, popping, holding, taken, Gateway, take_batch, writer_step,
}
use telemetry_platform_testb.Gateway.Run.Turns.{
  batches, conn_after, kept, shown, shown_of, held, has_ended, has_ended-taken, batches-snoc,
  conn_after-snoc, kept-snoc, shown-snoc, length-shown_le, held-taken,
}

module _ {F J : Type 0} (db : Database (TelemetryState F)) (t : Transactions db)
    (to_json : TelemetryState F → Option J) where
  open t use {rows}

  -- `all` is what was queued since `start`, in order. Each sample of it went through exactly one round,
  -- is held by the writer thread, or is queued, in this order. What the rounds did is what SQLite
  -- answered to them: the connection is the one that these answers leave, the table grew by the batches
  -- that they say were stored, the stream is that of the batches whose BEGIN succeeded, and db_rows is
  -- their number of samples. The writer thread does not end while the gateway runs.
  pub record Accounted (start : db.Db) (all : List (TelemetryState F)) (g : Gateway db J)
      : Type 0 where
    pub turns : List (List (TelemetryState F))
    pub queued : List (TelemetryState F)
    pub in_queue : IsQueue g.intake.queue queued
    pub whole : batches turns ++ (held g.writer ++ queued) ≡ all
    pub left : g.conn ≡ conn_after db start turns
    pub table : rows g.conn ≡ rows start ++ kept db t start turns
    pub stream : g.streamed ≡ broadcasts to_json (shown db start turns)
    pub counted : g.stats.db_rows ≡ length (shown db start turns)
    pub going : g.intake.running ≡ true → has_ended g.writer ≡ false

  stream-shown_of :
      (d : db.Db) (s : WriterStats) (t0 t1 : ℕ) (b : List (TelemetryState F))
      → s.db_rows + length b < 2 ^ 64
      → let out = write_batch db to_json d s t0 t1 b in
        (out.2 ≡ broadcasts to_json (shown_of db d b))
        × (out.1.db_rows ≡ s.db_rows + length (shown_of db d b))
  unfolding broadcasts
  stream-shown_of d s t0 t1 [] room = rw (write_batch-nil db t to_json d s t0 t1) (ground arith)
  stream-shown_of d s t0 t1 (x ∷ xs) room =
      let streams = write_batch-streams db t to_json d s t0 t1 x xs in
      elim (Bool-cases (db.begin d).0) [
        | inl opened ↦ let r = streams.1 opened in rw opened (ground (arith, r))
        | inr failed ↦ let r = streams.0 failed in rw failed (r.1, rw (r.0) (omega arith))
      ]

  abbrev pub Samples : Type 0
  Samples = List (TelemetryState F)

  -- A step that accounts for `all`, and leaves the flag as told.
  pub record Next (start : db.Db) (all : Samples) (running : Bool) (result : Option (Gateway db J))
      : Type 0 where
    pub next : Gateway db J
    pub returns : result ≡ some next
    pub accounted : Accounted start all next
    pub runs : next.intake.running ≡ running

  -- The writer thread took or left a batch: what it holds and what is queued are together as before.
  pub moved :
      (start : db.Db) (all : Samples) (g : Gateway db J) (i : Intake F)
      (w : Stand (TelemetryState F)) (a : Accounted start all g) (left : Samples)
      → IsQueue i.queue left
      → held w ++ left ≡ held g.writer ++ a.queued
      → (i.running ≡ true → has_ended w ≡ false)
      → Accounted start all (record g { intake = i; writer = w })
  moved start all g i w a left v same on = record {
    turns = a.turns;
    queued = left;
    in_queue = v;
    whole = ap (λ r. batches a.turns ++ r) same ∙ a.whole;
    left = a.left;
    table = a.table;
    stream = a.stream;
    counted = a.counted;
    going = on;
  }

  -- The callback queued `new`.
  pub received :
      (start : db.Db) (all new : Samples) (g : Gateway db J) (i : Intake F)
      (a : Accounted start all g)
      → IsQueue i.queue (a.queued ++ new)
      → i.running ≡ g.intake.running
      → Accounted start (all ++ new) (record g { intake = i })
  received start all new g i a v runs = record {
    turns = a.turns;
    queued = a.queued ++ new;
    in_queue = v;
    whole = simp (← a.whole, append_assoc);
    left = a.left;
    table = a.table;
    stream = a.stream;
    counted = a.counted;
    going = λ on. a.going (sym runs ∙ on);
  }

  pub length-queued :
      {start : db.Db} {all : Samples} {g : Gateway db J} (a : Accounted start all g)
      → length (batches a.turns) + (length (held g.writer) + length a.queued) ≡ length all
  length-queued {start} {all} {g} a = omega (
    arith,
    ap length a.whole,
    length-append (batches a.turns) (held g.writer ++ a.queued),
    length-append (held g.writer) a.queued,
  )

  module _ (max : ℕ) where
    pub take_batch-Next :
        (start : db.Db) (all : Samples) (g : Gateway db J)
        → g.writer ≡ popping
        → length all < 2 ^ 64
        → Accounted start all g
        → Next start all g.intake.running (take_batch db to_json max g)
    unfolding take_batch wait_is_over
    take_batch-Next start all g stands room a =
        let popped =
          queue_pop_batch-IsQueue g.intake.queue max a.queued a.in_queue
            (omega (arith, length-queued a)) in
        let after = λ (b : Samples) (q : Queue (TelemetryState F)). record g {
          intake = record g.intake { queue = q };
          writer = taken b;
        } in
        let done : Next start all g.intake.running (some (after (take max a.queued) popped.0)) =
          record {
            next = after (take max a.queued) popped.0;
            returns = refl;
            accounted =
                moved start all g (record g.intake { queue = popped.0 }) (taken (take max a.queued))
                  a (drop max a.queued) popped.2
                  (ap (λ h. h ++ drop max a.queued) (held-taken (take max a.queued))
                    ∙ take-append-drop max a.queued
                    ∙ ap (λ w. held w ++ a.queued) (sym stands))
                  (λ on. has_ended-taken (take max a.queued));
            runs = refl;
          } in
        elim (Bool-cases (wait_is_over g.intake.running g.intake.queue)) [
          | inl over ↦ rw over (rw (popped.1, ◌>>=◌) done)
          | inr waits ↦ rw waits (record { next = g; returns = refl; accounted = a; runs = refl })
        ]

    pub store-Next :
        (start : db.Db) (all : Samples) (g : Gateway db J) (t0 t1 : ℕ) (b : Samples)
        → g.writer ≡ holding b
        → length all < 2 ^ 64
        → Accounted start all g
        → Next start all g.intake.running (writer_step db to_json max g t0 t1 (holding b))
    unfolding writer_step
    store-Next start all g t0 t1 b stands room a =
        let holds = ap held stands in
        let out = write_batch db to_json g.conn g.stats t0 t1 b in
        let there = conn_after db start a.turns in
        let streams = stream-shown_of g.conn g.stats t0 t1 b (
          omega (
            arith,
            a.counted,
            length-shown_le db start a.turns,
            length-queued a,
            ap length holds,
          )) in
        record {
          next = record g {
            conn = out.0;
            stats = out.1;
            writer = testing;
            streamed = g.streamed ++ out.2;
          };
          returns = refl;
          accounted = record {
            turns = a.turns ++ b ∷ [];
            queued = a.queued;
            in_queue = a.in_queue;
            whole =
                ap (λ r. r ++ a.queued)
                  (batches-snoc a.turns b ∙ ap (λ r. batches a.turns ++ r) (sym holds))
                ∙ append_assoc (batches a.turns) (held g.writer) a.queued
                ∙ a.whole;
            left =
                write_batch-left_by db t to_json g.conn g.stats t0 t1 b
                ∙ ap (λ d. left_by db d b) a.left
                ∙ sym (conn_after-snoc db start a.turns b);
            table =
                write_batch-atomic db t to_json g.conn g.stats t0 t1 b
                ∙ ap (λ r. r ++ gained db t g.conn b) a.table
                ∙ ap (λ d. (rows start ++ kept db t start a.turns) ++ gained db t d b) a.left
                ∙ append_assoc (rows start) (kept db t start a.turns) (gained db t there b)
                ∙ ap (λ r. rows start ++ r) (sym (kept-snoc db t start a.turns b));
            stream =
                ap (λ r. r ++ out.2) a.stream
                ∙ ap (λ r. broadcasts to_json (shown db start a.turns) ++ r)
                    (streams.0 ∙ ap (λ d. broadcasts to_json (shown_of db d b)) a.left)
                ∙ sym (broadcasts-append to_json (shown db start a.turns) (shown_of db there b))
                ∙ ap (broadcasts to_json) (sym (shown-snoc db start a.turns b));
            counted = omega (
              arith,
              streams.1,
              a.counted,
              ap (λ d. length (shown_of db d b)) a.left,
              ap length (shown-snoc db start a.turns b),
              length-append (shown db start a.turns) (shown_of db there b),
            );
            going = λ on. refl;
          };
          runs = refl;
        }
