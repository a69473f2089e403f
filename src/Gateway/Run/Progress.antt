-- ===== src/Gateway/Run/Progress.antt =====
-- That writer_thread of src/core/telemetry_gateway.c empties the queue while the gateway runs, and ends
-- soon after telemetry_gateway_stop has told it to.
use telemetry_platform_testb.Base.{
  ◌>>=◌, ℕ, suc, ◌+◌, ◌*◌, ◌^◌, ◌≤◌, ◌<◌, ◌≡◌, refl, ap, sym, ap₂, subst, ◌∙◌, Bool, true, false,
  List, [], ◌∷◌, ◌++◌, append-nil, Option, none, some, arith, length,
}
use telemetry_platform_testb.Types.{TelemetryMsg, TelemetryState}
use telemetry_platform_testb.Gateway.Queue.Refine.{IsQueue}
use telemetry_platform_testb.Gateway.Queue.Waits.{IsQueue-empty}
use telemetry_platform_testb.Gateway.Writer.{Database, broadcasts}
use telemetry_platform_testb.Gateway.Writer.Rounds.{Transactions}
use telemetry_platform_testb.Gateway.Run.{ended, Action, stops, Gateway, act, run}
use telemetry_platform_testb.Gateway.Run.Turns.{batches, conn_after, kept, shown, held}
use telemetry_platform_testb.Gateway.Run.Steps.{length-queued}
use telemetry_platform_testb.Gateway.Run.Accounts.{
  accepted, AllocatesFresh, runs_after, length-accepted, run-Accounted, JustStarted, run-accounts,
}
use telemetry_platform_testb.Gateway.Run.Moves.{At}
use telemetry_platform_testb.Gateway.Run.Reaching.{writes_all, drain_any, stopped_ends}

only_batches :
    {A : Type 0} (b h q all more : List A)
    → b ++ (h ++ q) ≡ all ++ more
    → h ≡ []
    → q ≡ []
    → more ≡ []
    → b ≡ all
only_batches b h q all more e none_held none_queued no_more = cc (
  append-nil b,
  append-nil all,
  e,
  ap₂ (λ x y. b ++ (x ++ y)) none_held none_queued,
  ap (λ x. all ++ x) no_more,
)

module _ {F J : Type 0} (db : Database (TelemetryState F)) (t : Transactions db)
    (to_json : TelemetryState F → Option J) (max : ℕ) (zero_f : F)
    (unpack : List ℕ → Option (TelemetryMsg F)) where
  open t use {rows}

  run-append :
      (g : Gateway db J) (as_ bs : List Action)
      → run db to_json max zero_f unpack g (as_ ++ bs)
        ≡ (run db to_json max zero_f unpack g as_ >>= λ f. run db to_json max zero_f unpack f bs)
  unfolding run
  run-append g [] bs = refl
  run-append g (a ∷ as_) bs =
      by_step (act db to_json max zero_f unpack g a) (λ n. run-append n as_ bs)
    where
      by_step :
          (o : Option (Gateway db J))
          → ((n : Gateway db J)
              → run db to_json max zero_f unpack n (as_ ++ bs) ≡ (
                  run db to_json max zero_f unpack n as_ >>= λ f.
                  run db to_json max zero_f unpack f bs))
          → (o >>= λ n. run db to_json max zero_f unpack n (as_ ++ bs)) ≡ (
              (o >>= λ n. run db to_json max zero_f unpack n as_) >>= λ f.
              run db to_json max zero_f unpack f bs)
      by_step none rest = refl
      by_step (some n) rest = rest n

  accepted-writes : (b : Bool) (ts : List (ℕ × ℕ)) → accepted zero_f unpack b (writes_all ts) ≡ []
  accepted-writes b [] = refl
  accepted-writes b (t ∷ ts) = accepted-writes b ts

  writes-fresh :
      (g : Gateway db J) (ts : List (ℕ × ℕ))
      → AllocatesFresh db t to_json max zero_f unpack g (writes_all ts)
  writes-fresh g [] = tt
  writes-fresh g (t ∷ ts) = (tt, λ next e. writes-fresh next ts)

  length-writes : (ts : List (ℕ × ℕ)) → length (writes_all ts) ≡ length ts
  length-writes [] = refl
  length-writes (t ∷ ts) = ap suc (length-writes ts)

  -- While the gateway runs, every queued sample gets its round: after any actions that do not stop the
  -- gateway, the writer thread, left to run for three steps for each of them and two more, has taken
  -- every sample that was to be queued through exactly one round, in the order of arrival, and nothing
  -- is queued any more. The table has the batches that were committed, the stream those whose
  -- transaction was opened. A batch has room for one sample at least.
  pub run-drains :
      (g : Gateway db J) (as_ : List Action) (ts : List (ℕ × ℕ))
      → JustStarted db t to_json max zero_f unpack g
      → AllocatesFresh db t to_json max zero_f unpack g as_
      → runs_after db t to_json max zero_f unpack true as_ ≡ true
      → 1 ≤ max
      → length as_ + length ts < 2 ^ 64
      → 3 * length as_ + 2 ≤ length ts
      → (final : Gateway db J) × (turns : List (List (TelemetryState F))) × (run db to_json max
            zero_f unpack g
            (as_ ++ writes_all ts)
          ≡ some final)
        × IsQueue final.intake.queue []
        × (batches turns ≡ accepted zero_f unpack true as_)
        × (final.conn ≡ conn_after db g.conn turns)
        × (rows final.conn ≡ rows g.conn ++ kept db t g.conn turns)
        × (final.streamed ≡ broadcasts to_json (shown db g.conn turns))
  run-drains g as_ ts s fresh runs some_room room enough =
      let first = run-accounts db t to_json max zero_f unpack g as_ s fresh (omega arith) in
      let acc = first.2 in
      let few = length-accepted db t to_json max zero_f unpack true as_ in
      let counted = length-queued db t to_json acc in
      let on = first.3 ∙ runs in
      let there : At db to_json max zero_f unpack true acc.queued first.0.writer first.0 = record {
        queued = acc.in_queue;
        runs = on;
        stands = refl;
      } in
      let left =
        drain_any db to_json max zero_f unpack ts acc.queued first.0.writer first.0 there
          (acc.going on) (omega (arith, few, counted)) some_room (omega (arith, few, counted)) in
      let later =
        run-Accounted db t to_json max zero_f unpack g.conn (accepted zero_f unpack true as_)
          first.0 (writes_all ts) (writes-fresh first.0 ts) (omega (arith, few, length-writes ts))
          acc in
      let same : later.0 ≡ left.final = cc (later.1, left.returns) in
      let none_queued = subst (λ f. IsQueue f.intake.queue []) (sym same) left.there.0 in
      let nothing =
        IsQueue-empty later.0.intake.queue later.2.queued none_queued later.2.in_queue in
      let hands = ap (λ f. held f.writer) same ∙ left.there.1 in
      (
        later.0,
        later.2.turns,
        run-append g as_ (writes_all ts) ∙ rw (first.1, ◌>>=◌) later.1,
        none_queued,
        only_batches (batches later.2.turns) (held later.0.writer) later.2.queued
            (accepted zero_f unpack true as_)
            (accepted zero_f unpack first.0.intake.running (writes_all ts)) later.2.whole hands
            nothing (accepted-writes first.0.intake.running ts),
        later.2.left,
        later.2.table,
        later.2.stream,
      )

  -- The writer thread ends: after any actions and a stop, three steps of it are enough, wherever it
  -- stood. Each sample that was to be queued before the stop, in the order of arrival, then went through
  -- exactly one round, or is still queued and gets none.
  pub stop-ends :
      (g : Gateway db J) (as_ : List Action) (a b c : ℕ × ℕ)
      → JustStarted db t to_json max zero_f unpack g
      → AllocatesFresh db t to_json max zero_f unpack g as_
      → length as_ + 4 < 2 ^ 64
      → (final : Gateway db J) × (turns : List (List (TelemetryState F))) × (left : List
          (TelemetryState F))
        × (run db to_json max zero_f unpack g (as_ ++ stops ∷ writes_all (a ∷ b ∷ c ∷ []))
            ≡ some final)
        × (final.writer ≡ ended)
        × IsQueue final.intake.queue left
        × (batches turns ++ left ≡ accepted zero_f unpack true as_)
        × (final.conn ≡ conn_after db g.conn turns)
        × (rows final.conn ≡ rows g.conn ++ kept db t g.conn turns)
        × (final.streamed ≡ broadcasts to_json (shown db g.conn turns))
  unfolding run act
  stop-ends g as_ a b c s fresh room =
      let first = run-accounts db t to_json max zero_f unpack g as_ s fresh (omega arith) in
      let acc = first.2 in
      let few = length-accepted db t to_json max zero_f unpack true as_ in
      let counted = length-queued db t to_json acc in
      let steps = stops ∷ writes_all (a ∷ b ∷ c ∷ []) in
      let later =
        run-Accounted db t to_json max zero_f unpack g.conn (accepted zero_f unpack true as_)
          first.0 steps (tt, λ next e. writes-fresh next (a ∷ b ∷ c ∷ [])) (omega (arith, few))
          acc in
      let told = record first.0 { intake = record first.0.intake { running = false } } in
      let stopped =
        stopped_ends db to_json max zero_f unpack a.0 a.1 b.0 b.1 c.0 c.1 acc.queued first.0.writer
          told (record { queued = acc.in_queue; runs = refl; stands = refl })
          (omega (arith, few, counted)) in
      let same : later.0 ≡ stopped.final = cc (later.1, stopped.returns) in
      let at_end = ap (λ f. f.writer) same ∙ stopped.there in
      (
        later.0,
        later.2.turns,
        later.2.queued,
        run-append g as_ steps ∙ rw (first.1, ◌>>=◌) later.1,
        at_end,
        later.2.in_queue,
        ap (λ w. batches later.2.turns ++ (held w ++ later.2.queued)) (sym at_end)
            ∙ later.2.whole
            ∙ append-nil _,
        later.2.left,
        later.2.table,
        later.2.stream,
      )
