-- ===== src/Gateway/Run.antt =====
-- The gateway of src/core/telemetry_gateway.c at work: the MQTT callback (on_message), the writer thread
-- (writer_thread) and the first lines of telemetry_gateway_stop, as actions on the state that they share,
-- in any order. The queue is taken under q_mu, so a batch is taken in one action; the transaction and
-- the broadcasts touch nothing that the callback does.
pub mod Turns
pub mod Steps
pub mod Accounts
pub mod Moves
pub mod Reaching
pub mod Progress
pub mod Examples
use telemetry_platform_testb.Base.{
  ◌>>=◌, ℕ, Bool, true, false, List, [], ◌∷◌, ◌++◌, Option, none, some, if◌then◌else◌,
}
use telemetry_platform_testb.Types.{TelemetryMsg, TelemetryState}
use telemetry_platform_testb.Gateway.Queue.{Queue, wait_is_over, queue_pop_batch}
use telemetry_platform_testb.Gateway.Message.{Received, Intake, Given, on_message}
use telemetry_platform_testb.Gateway.Writer.{Database, WriterStats, write_batch}

-- Where the writer thread stands: before `while(g->running)`, in queue_pop_batch, with a batch that it
-- took, or behind the loop.
pub data Stand (S : Type 0) : Type 0 where
  testing : Stand S
  popping : Stand S
  holding : List S → Stand S
  ended : Stand S

-- `if(n <= 0) continue;`
pub taken : {S : Type 0} → List S → Stand S
taken [] = testing
taken (s ∷ ss) = holding (s ∷ ss)

-- `receives` is a call of the callback; `writes` is a step of the writer thread, with the clock before
-- and after its transaction; `stops` is telemetry_gateway_stop up to the joins.
pub data Action : Type 0 where
  receives : Given → Received → Action
  writes : ℕ → ℕ → Action
  stops : Action

module _ {F : Type 0} (db : Database (TelemetryState F)) (J : Type 0) where
  open db use {Db}

  -- The gateway, its connection, its writer thread, and what was broadcast so far.
  pub record Gateway : Type 0 where
    pub intake : Intake F
    pub conn : Db
    pub stats : WriterStats
    pub writer : Stand (TelemetryState F)
    pub streamed : List J

module _ {F J : Type 0} (db : Database (TelemetryState F)) (to_json : TelemetryState F → Option J)
    (max : ℕ) where
  -- queue_pop_batch, which waits while the gateway runs and the queue is empty.
  pub take_batch : Gateway db J → Option (Gateway db J)
  unfolding wait_is_over taken
  take_batch g =
      let popped = queue_pop_batch g.intake.queue max >>= λ batch.
      some (record g { intake = record g.intake { queue = batch.1 }; writer = taken batch.0 }) in
      if wait_is_over g.intake.running g.intake.queue then popped else some g

  pub writer_step : Gateway db J → ℕ → ℕ → Stand (TelemetryState F) → Option (Gateway db J)
  unfolding take_batch
  writer_step g t0 t1 testing =
      some (record g { writer = if g.intake.running then popping else ended })
  writer_step g t0 t1 popping = take_batch g
  writer_step g t0 t1 (holding batch) =
      let out = write_batch db to_json g.conn g.stats t0 t1 batch in
      some
        (record g { conn = out.0; stats = out.1; writer = testing; streamed = g.streamed ++ out.2 })
  writer_step g t0 t1 ended = some g

  module _ (zero_f : F) (unpack : List ℕ → Option (TelemetryMsg F)) where
    -- None is an access to freed memory.
    pub act : Gateway db J → Action → Option (Gateway db J)
    unfolding writer_step
    act g (receives e msg) =
        on_message zero_f unpack g.intake e msg >>= λ i. some (record g { intake = i })
    act g (writes t0 t1) = writer_step g t0 t1 g.writer
    act g stops = some (record g { intake = record g.intake { running = false } })

    pub run : Gateway db J → List Action → Option (Gateway db J)
    unfolding act
    run g [] = some g
    run g (a ∷ as_) = act g a >>= λ next. run next as_
