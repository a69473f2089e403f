-- ===== src/Gateway/Run/Moves.antt =====
-- The steps of writer_thread in src/core/telemetry_gateway.c, when no other thread runs.
use telemetry_platform_testb.Base.{
  ◌>>=◌, ℕ, ◌^◌, ◌<◌, ◌≡◌, refl, ap, sym, subst, ◌∙◌, Bool, true, false, not, ◌&&◌, List, ◌++◌,
  Option, some, length, drop, take, if◌then◌else◌,
}
use telemetry_platform_testb.Types.{TelemetryMsg, TelemetryState}
use telemetry_platform_testb.Gateway.Queue.Refine.{IsQueue}
use telemetry_platform_testb.Gateway.Queue.Batches.{queue_pop_batch-IsQueue}
use telemetry_platform_testb.Gateway.Queue.Waits.{is_empty, wait_is_over-IsQueue}
use telemetry_platform_testb.Gateway.Writer.{Database, write_batch}
use telemetry_platform_testb.Gateway.Run.{
  Stand, testing, popping, holding, ended, taken, writes, Gateway, take_batch, writer_step, act,
}

module _ {F J : Type 0} (db : Database (TelemetryState F)) (to_json : TelemetryState F → Option J)
    (max : ℕ) (zero_f : F) (unpack : List ℕ → Option (TelemetryMsg F)) where
  abbrev Samples : Type 0
  Samples = List (TelemetryState F)

  -- The writer thread stands at `w`, with `xs` queued.
  pub record At (running : Bool) (xs : Samples) (w : Stand (TelemetryState F)) (g : Gateway db J)
      : Type 0 where
    pub queued : IsQueue g.intake.queue xs
    pub runs : g.intake.running ≡ running
    pub stands : g.writer ≡ w

  pub record Leads (running : Bool) (xs : Samples) (w : Stand (TelemetryState F))
      (result : Option (Gateway db J)) : Type 0 where
    pub next : Gateway db J
    pub returns : result ≡ some next
    pub there : At running xs w next

  module _ (running : Bool) (xs : Samples) (g : Gateway db J) (t0 t1 : ℕ) where
    abbrev step : Option (Gateway db J)
    step = act db to_json max zero_f unpack g (writes t0 t1)

    -- The step is that of the place where the thread stands.
    stands-step :
        (w : Stand (TelemetryState F)) {ys : Samples} {u : Stand (TelemetryState F)}
        → At running xs w g
        → Leads running ys u (writer_step db to_json max g t0 t1 w)
        → Leads running ys u step
    unfolding act
    stands-step w {ys} {u} a l =
        subst (λ v. Leads running ys u (writer_step db to_json max g t0 t1 v)) (sym a.stands) l

    pub testing-step :
        At running xs testing g → Leads running xs (if running then popping else ended) step
    unfolding writer_step
    testing-step a = stands-step testing a (record {
      next = record g { writer = if g.intake.running then popping else ended };
      returns = refl;
      there = record {
        queued = a.queued;
        runs = a.runs;
        stands = ap (λ b. if b then popping else ended) a.runs;
      };
    })

    pub popping-step :
        At running xs popping g
        → not (running && is_empty xs) ≡ true
        → length xs < 2 ^ 64
        → Leads running (drop max xs) (taken (take max xs)) step
    unfolding writer_step take_batch
    popping-step a over room =
        let popped = queue_pop_batch-IsQueue g.intake.queue max xs a.queued room in
        let now =
          wait_is_over-IsQueue g.intake.running g.intake.queue xs a.queued
          ∙ ap (λ b. not (b && is_empty xs)) a.runs
          ∙ over in
        stands-step popping a (record {
          next = record g {
            intake = record g.intake { queue = popped.0 };
            writer = taken (take max xs);
          };
          returns = rw now (rw (popped.1, ◌>>=◌));
          there = record { queued = popped.2; runs = a.runs; stands = refl };
        })

    pub waiting-step :
        At running xs popping g
        → not (running && is_empty xs) ≡ false
        → Leads running xs popping step
    unfolding writer_step take_batch
    waiting-step a waits =
        let still =
          wait_is_over-IsQueue g.intake.running g.intake.queue xs a.queued
          ∙ ap (λ b. not (b && is_empty xs)) a.runs
          ∙ waits in
        stands-step popping a (record { next = g; returns = rw still; there = a })

    pub holding-step : (b : Samples) → At running xs (holding b) g → Leads running xs testing step
    unfolding writer_step
    holding-step b a =
        let out = write_batch db to_json g.conn g.stats t0 t1 b in
        stands-step (holding b) a (record {
          next = record g {
            conn = out.0;
            stats = out.1;
            writer = testing;
            streamed = g.streamed ++ out.2;
          };
          returns = refl;
          there = record { queued = a.queued; runs = a.runs; stands = refl };
        })

    pub ended-step : At running xs ended g → Leads running xs ended step
    unfolding writer_step
    ended-step a = stands-step ended a (record { next = g; returns = refl; there = a })
