-- ===== src/Gateway/Run/Accounts.antt =====
-- What becomes of every sample that the gateway of src/core/telemetry_gateway.c queues, in any order of
-- the callback, the writer thread and the stop, and whatever SQLite answers.
use telemetry_platform_testb.Base.{
  ◌>>=◌, ℕ, ◌+◌, ◌^◌, ◌≤◌, ◌<◌, ◌≡◌, refl, ap, sym, subst, ◌∙◌, Bool, true, false, List, [], ◌∷◌,
  ◌++◌, append-nil, append_assoc, if◌then◌else◌, Option, none, some, arith, length, length-append,
}
use telemetry_platform_testb.Types.{TelemetryMsg, TelemetryState}
use telemetry_platform_testb.Gateway.Queue.Refine.{IsQueue}
use telemetry_platform_testb.Gateway.Message.{Intake}
use telemetry_platform_testb.Gateway.Message.Receive.{admitted, on_message-Queues, length-admitted}
use telemetry_platform_testb.Gateway.Writer.{Database, broadcasts}
use telemetry_platform_testb.Gateway.Writer.Rounds.{Transactions}
use telemetry_platform_testb.Gateway.Run.{
  Stand, testing, popping, holding, ended, Action, receives, writes, stops, Gateway, writer_step,
  act, run,
}
use telemetry_platform_testb.Gateway.Run.Turns.{held, has_ended}
use telemetry_platform_testb.Gateway.Run.Steps.{
  Accounted, Next, Samples, moved, received, length-queued, take_batch-Next, store-Next,
}

-- The samples that the actions queue, from the messages, the memory and the flag alone.
module _ {F : Type 0} (zero_f : F) (unpack : List ℕ → Option (TelemetryMsg F)) where
  abbrev pub accepted : Bool → List Action → List (TelemetryState F)
  accepted running [] = []
  accepted running (receives e msg ∷ as_) =
      admitted zero_f unpack running e msg ++ accepted running as_
  accepted running (writes t0 t1 ∷ as_) = accepted running as_
  accepted running (stops ∷ as_) = accepted false as_

module _ {F J : Type 0} (db : Database (TelemetryState F)) (t : Transactions db)
    (to_json : TelemetryState F → Option J) (max : ℕ) (zero_f : F)
    (unpack : List ℕ → Option (TelemetryMsg F)) where
  abbrev perform : Gateway db J → Action → Option (Gateway db J)
  perform = act db to_json max zero_f unpack

  -- The node that calloc returns in a callback is not allocated at that moment.
  abbrev IsFresh : Gateway db J → Action → Type 0
  IsFresh g (receives e msg) = (n : ℕ) → e.node ≡ some n → g.intake.queue.cell n ≡ none
  IsFresh g (writes t0 t1) = Unit {0}
  IsFresh g stops = Unit {0}

  abbrev pub AllocatesFresh : Gateway db J → List Action → Type 0
  AllocatesFresh g [] = Unit {0}
  AllocatesFresh g (a ∷ as_) =
      IsFresh g a × ((next : Gateway db J) → perform g a ≡ some next → AllocatesFresh next as_)

  writer_step-Next :
      (start : db.Db) (all : Samples db t to_json) (g : Gateway db J) (t0 t1 : ℕ)
      (w : Stand (TelemetryState F))
      → g.writer ≡ w
      → length all < 2 ^ 64
      → Accounted db t to_json start all g
      → Next db t to_json start all g.intake.running (writer_step db to_json max g t0 t1 w)
  unfolding writer_step
  writer_step-Next start all g t0 t1 testing stands room a =
      let w = if g.intake.running then popping else ended in
      record {
        next = record g { writer = w };
        returns = refl;
        accounted =
            moved db t to_json start all g g.intake w a a.queued a.in_queue
              (ground (arith, ap held stands))
              (λ on. ap (λ b. has_ended {S = TelemetryState F} (if b then popping else ended)) on);
        runs = refl;
      }
  writer_step-Next start all g t0 t1 popping stands room a =
      take_batch-Next db t to_json max start all g stands room a
  writer_step-Next start all g t0 t1 (holding b) stands room a =
      store-Next db t to_json max start all g t0 t1 b stands room a
  writer_step-Next start all g t0 t1 ended stands room a = record {
    next = g;
    returns = refl;
    accounted = a;
    runs = refl;
  }

  -- What an action adds to the account, and the flag behind it.
  abbrev adds : Bool → Action → List (TelemetryState F)
  adds running a = accepted zero_f unpack running (a ∷ [])

  abbrev still_runs : Bool → Action → Bool
  still_runs running (receives e msg) = running
  still_runs running (writes t0 t1) = running
  still_runs running stops = false

  abbrev pub runs_after : Bool → List Action → Bool
  runs_after running [] = running
  runs_after running (a ∷ as_) = runs_after (still_runs running a) as_

  act-Next :
      (start : db.Db) (all : List (TelemetryState F)) (g : Gateway db J) (a : Action)
      → IsFresh g a
      → length all + 1 < 2 ^ 64
      → Accounted db t to_json start all g
      → Next db t to_json start
          (all ++ adds g.intake.running a)
          (still_runs g.intake.running a)
          (perform g a)
  unfolding act
  act-Next start all g (receives e msg) fresh room acc =
      let v =
        on_message-Queues zero_f unpack g.intake e msg acc.queued acc.in_queue fresh
          (omega (arith, length-queued db t to_json acc)) in
      record {
        next = record g { intake = v.after };
        returns = ap (λ o. o >>= λ i. some (record g { intake = i })) v.returns;
        accounted =
            subst (λ new. Accounted db t to_json start (all ++ new) (record g { intake = v.after }))
              (sym (append-nil _)) (received db t to_json start all _ g v.after acc v.holds v.runs);
        runs = v.runs;
      }
  act-Next start all g (writes t0 t1) fresh room acc =
      subst
        (λ all'.
          Next db t to_json start all' g.intake.running
            (writer_step db to_json max g t0 t1 g.writer))
        (sym (append-nil all)) (writer_step-Next start all g t0 t1 g.writer refl (omega arith) acc)
  act-Next start all g stops fresh room acc =
      let i : Intake F = record g.intake { running = false } in
      record {
        next = record g { intake = i };
        returns = refl;
        accounted =
            subst (λ all'. Accounted db t to_json start all' (record g { intake = i }))
              (sym (append-nil all))
              (moved db t to_json start all g i g.writer acc acc.queued acc.in_queue refl
                (λ on. cc));
        runs = refl;
      }

  accepted-cons :
      (running : Bool) (a : Action) (as_ : List Action)
      → accepted zero_f unpack running (a ∷ as_)
        ≡ adds running a ++ accepted zero_f unpack (still_runs running a) as_
  accepted-cons running (receives e msg) as_ =
      sym (ap (λ r. r ++ accepted zero_f unpack running as_) (append-nil _))
  accepted-cons running (writes t0 t1) as_ = refl
  accepted-cons running stops as_ = refl

  length-adds : (running : Bool) (a : Action) → length (adds running a) ≤ 1
  length-adds running (receives e msg) = omega (
    arith,
    length-admitted zero_f unpack running e msg,
    length-append (admitted zero_f unpack running e msg) [],
  )
  length-adds running (writes t0 t1) = omega arith
  length-adds running stops = omega arith

  pub length-accepted :
      (running : Bool) (as_ : List Action)
      → length (accepted zero_f unpack running as_) ≤ length as_
  length-accepted running [] = omega arith
  length-accepted running (receives e msg ∷ as_) =
      let rest = accepted zero_f unpack running as_ in
      omega (
        arith,
        length-append (admitted zero_f unpack running e msg) rest,
        length-admitted zero_f unpack running e msg,
        length-accepted running as_,
      )
  length-accepted running (writes t0 t1 ∷ as_) = omega (arith, length-accepted running as_)
  length-accepted running (stops ∷ as_) = omega (arith, length-accepted false as_)

  pub run-Accounted :
      (start : db.Db) (all : List (TelemetryState F)) (g : Gateway db J) (as_ : List Action)
      → AllocatesFresh g as_
      → length all + length as_ < 2 ^ 64
      → Accounted db t to_json start all g
      → (final : Gateway db J) × (run db to_json max zero_f unpack g as_ ≡ some final)
        × Accounted db t to_json start (all ++ accepted zero_f unpack g.intake.running as_) final
        × (final.intake.running ≡ runs_after g.intake.running as_)
  unfolding run
  run-Accounted start all g [] fresh room acc =
      (g, refl, subst (λ a. Accounted db t to_json start a g) (sym (append-nil all)) acc, refl)
  run-Accounted start all g (a ∷ as_) fresh room acc =
      let running = g.intake.running in
      let one = act-Next start all g a fresh.0 (omega arith) acc in
      let later =
        run-Accounted start (all ++ adds running a) one.next as_ (fresh.1 one.next one.returns)
          (omega (arith, length-append all (adds running a), length-adds running a))
          one.accounted in
      (
        later.0,
        rw (one.returns, ◌>>=◌) later.1,
        subst (λ xs. Accounted db t to_json start xs later.0)
            (ap (λ b. (all ++ adds running a) ++ accepted zero_f unpack b as_) one.runs
              ∙ append_assoc all (adds running a)
                  (accepted zero_f unpack (still_runs running a) as_)
              ∙ ap (λ xs. all ++ xs) (sym (accepted-cons running a as_)))
            later.2,
        later.3 ∙ ap (λ b. runs_after b as_) one.runs,
      )

  -- A gateway whose threads were just created.
  pub record JustStarted (g : Gateway db J) : Type 0 where
    pub empty : IsQueue g.intake.queue []
    pub runs : g.intake.running ≡ true
    pub stands : g.writer ≡ testing
    pub nothing : g.streamed ≡ []
    pub zero_rows : g.stats.db_rows ≡ 0

  pub started-Accounted : (g : Gateway db J) → JustStarted g → Accounted db t to_json g.conn [] g
  unfolding broadcasts
  started-Accounted g s = record {
    turns = [];
    queued = [];
    in_queue = s.empty;
    whole = ap (λ w. held w ++ []) s.stands;
    left = refl;
    table = sym (append-nil _);
    stream = s.nothing;
    counted = s.zero_rows;
    going = λ on. ap has_ended s.stands;
  }

  -- From a gateway that has just started, in any order of callbacks, steps of the writer thread and a
  -- stop, and whatever SQLite answers: no access is invalid, and each sample that a message on the state
  -- topic was to queue, in the order of arrival, went through exactly one round, is held by the writer
  -- thread or is still queued. The connection is the one that SQLite's answers to these rounds leave. The
  -- table grew, in order, by exactly the batches whose BEGIN, inserts and COMMIT all succeeded, and by
  -- the samples of others that were inserted after SQLite had ended their transaction; the stream is exactly
  -- that of the batches whose BEGIN succeeded, in order; db_rows is the number of their samples; the
  -- gateway runs unless it was stopped; and the writer thread has not ended while it runs.
  pub run-accounts :
      (g : Gateway db J) (as_ : List Action)
      → JustStarted g
      → AllocatesFresh g as_
      → length as_ < 2 ^ 64
      → (final : Gateway db J) × (run db to_json max zero_f unpack g as_ ≡ some final)
        × Accounted db t to_json g.conn (accepted zero_f unpack true as_) final
        × (final.intake.running ≡ runs_after true as_)
  run-accounts g as_ s fresh room =
      let all = run-Accounted g.conn [] g as_ fresh (omega arith) (started-Accounted g s) in
      (
        all.0,
        all.1,
        subst (λ b. Accounted db t to_json g.conn (accepted zero_f unpack b as_) all.0) s.runs
            all.2,
        all.3 ∙ ap (λ b. runs_after b as_) s.runs,
      )
