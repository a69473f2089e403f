-- ===== src/Journey/Stored.antt =====
-- That what src/core/telemetry_state_pub.c publishes is what src/core/telemetry_gateway.c handles.
use telemetry_platform_testb.Base.{
  ℕ, ◌+◌, ◌*◌, ◌^◌, ◌≤◌, ◌<◌, ◌≡◌, subst, ◌∙◌, List, [], ◌++◌, Option, some, length,
}
use telemetry_platform_testb.Types.{TelemetryMsg, TelemetryState}
use telemetry_platform_testb.Tick.{Timespec, second_ns}
use telemetry_platform_testb.Publisher.{PubArgs, Moment, pub_rounds}
use telemetry_platform_testb.Publisher.Rounds.{payloads, pub_rounds-payloads}
use telemetry_platform_testb.Gateway.Queue.Refine.{IsQueue}
use telemetry_platform_testb.Gateway.Message.Names.{IsFitting}
use telemetry_platform_testb.Gateway.Writer.{Database, broadcasts}
use telemetry_platform_testb.Gateway.Writer.Rounds.{Transactions}
use telemetry_platform_testb.Gateway.Run.{Action, Gateway, run}
use telemetry_platform_testb.Gateway.Run.Turns.{batches, conn_after, kept, shown}
use telemetry_platform_testb.Gateway.Run.Accounts.{AllocatesFresh, JustStarted}
use telemetry_platform_testb.Gateway.Run.Reaching.{writes_all}
use telemetry_platform_testb.Gateway.Run.Progress.{run-drains}
use telemetry_platform_testb.Journey.Messages.{
  arrivals, GoesOn, Delivers, Unpacks, samples_of, accepted-samples, runs_after-going,
}

module _ {F J : Type 0} (db : Database (TelemetryState F)) (t : Transactions db)
    (to_json : TelemetryState F → Option J) (max : ℕ) (zero_f : F) (pack : TelemetryMsg F → List ℕ)
    (unpack : List ℕ → Option (TelemetryMsg F)) (a : PubArgs) (period_ns : ℕ) where
  -- The readings of the robot reach the table and the stream: when the publisher went through the
  -- rounds `ms` and published `sent`, the broker delivered these payloads in order, with a node for
  -- each, while the gateway ran, unpack undoes pack on the messages of these rounds, and the ids of the robot fit their arrays, then the
  -- writer thread that is left to run takes the sample of each snapshot, with all its readings, through
  -- exactly one round, in the order of the snapshots, and nothing is queued any more. The table grew by
  -- the batches that were committed, and the stream is that of the batches whose transaction was opened.
  pub readings-arrive :
      (ms : List (Moment F)) (next last : Timespec) (sent : List (List ℕ)) (g : Gateway db J)
      (as_ : List Action) (ts : List (ℕ × ℕ))
      → next.tv_nsec < second_ns
      → pub_rounds pack a period_ns ms next ≡ some (sent, last)
      → Unpacks zero_f pack unpack a period_ns ms
      → IsFitting a
      → JustStarted db t to_json max zero_f unpack g
      → AllocatesFresh db t to_json max zero_f unpack g as_
      → GoesOn as_
      → Delivers (arrivals as_) sent
      → 1 ≤ max
      → length as_ + length ts < 2 ^ 64
      → 3 * length as_ + 2 ≤ length ts
      → (final : Gateway db J) × (turns : List (List (TelemetryState F))) × (run db to_json max
            zero_f unpack g
            (as_ ++ writes_all ts)
          ≡ some final)
        × IsQueue final.intake.queue []
        × (batches turns ≡ samples_of zero_f pack unpack a period_ns ms (arrivals as_))
        × (final.conn ≡ conn_after db g.conn turns)
        × (t.rows final.conn ≡ t.rows g.conn ++ kept db t g.conn turns)
        × (final.streamed ≡ broadcasts to_json (shown db g.conn turns))
  readings-arrive ms next last sent g as_ ts small published whole fits s fresh on d some_room room
        enough =
      let rounds = pub_rounds-payloads pack a period_ns ms next small in
      let same : sent ≡ payloads pack a period_ns ms = cc (published, rounds.1) in
      let drained =
        run-drains db t to_json max zero_f unpack g as_ ts s fresh
          (runs_after-going zero_f pack unpack a period_ns fits db t to_json max as_ on) some_room
          room enough in
      (
        drained.0,
        drained.1,
        drained.2,
        drained.3,
        drained.4
            ∙ accepted-samples zero_f pack unpack a period_ns fits ms as_ on whole
                (subst (Delivers (arrivals as_)) same d),
        drained.5,
        drained.6,
        drained.7,
      )
