-- ===== src/Journey/Examples.antt =====
-- Two rounds of the publisher, of which the second finds no memory; a packed message is its time.
use telemetry_platform_testb.Base.{
  ℕ, ◌≡◌, refl, true, false, List, [], ◌∷◌, ◌++◌, Option, none, some, arith,
}
use telemetry_platform_testb.Base.Int.{pos}
use telemetry_platform_testb.Types.{TelemetryMsg}
use telemetry_platform_testb.Tick.{Timespec, carry, next_tick}
use telemetry_platform_testb.Cache.{init}
use telemetry_platform_testb.Publisher.{Moment, build_message, pub_rounds}
use telemetry_platform_testb.Gateway.Queue.{empty}
use telemetry_platform_testb.Gateway.Queue.Refine.{IsQueue, empty-IsQueue}
use telemetry_platform_testb.Gateway.Message.{topic_telemetry_state}
use telemetry_platform_testb.Gateway.Message.Names.{IsFitting}
use telemetry_platform_testb.Gateway.Writer.{broadcasts}
use telemetry_platform_testb.Gateway.Run.{Action, receives, writes, Gateway, run}
use telemetry_platform_testb.Gateway.Run.Examples.{Sample, table, table-Transactions, to_seq, start}
use telemetry_platform_testb.Gateway.Run.Turns.{batches, conn_after, kept, shown}
use telemetry_platform_testb.Gateway.Run.Accounts.{AllocatesFresh, JustStarted}
use telemetry_platform_testb.Gateway.Run.Reaching.{writes_all}
use telemetry_platform_testb.Starting.{state_ids}
use telemetry_platform_testb.Journey.Messages.{arrivals, Delivers, Unpacks, samples_of}
use telemetry_platform_testb.Journey.Stored.{readings-arrive}

state_ids-IsFitting : IsFitting state_ids
state_ids-IsFitting = omega arith

abbrev clock_bytes : TelemetryMsg ℕ → List ℕ
clock_bytes m = elim m.header [ some h ↦ h.timestamp_ns ∷ [] | none ↦ [] ]

abbrev read_clock : List ℕ → Option (TelemetryMsg ℕ)
read_clock [] = none
read_clock (b ∷ bs) = some (build_message state_ids (init 0) b)

abbrev moments : List (Moment ℕ)
moments =
    record { cache = init 0; now = 11; room = true }
    ∷ record { cache = init 0; now = 12; room = false }
    ∷ []

abbrev first_deadline : Timespec
first_deadline = record { tv_sec = 4; tv_nsec = 900000000 }

abbrev last_deadline : Timespec
last_deadline = record { tv_sec = 5; tv_nsec = 100000000 }

sent_numbers :
    pub_rounds clock_bytes state_ids 200000000 moments first_deadline
    ≡ some ((11 ∷ []) ∷ [], last_deadline)
unfolding pub_rounds build_message next_tick carry
sent_numbers = refl

abbrev actions : List Action
actions =
    receives (record { now_realtime_ns = pos 9; raw_room = true; node = some 3 })
      (record { topic = some topic_telemetry_state; payload = 11 ∷ [] })
    ∷ writes 10 20
    ∷ []

abbrev clocks : List (ℕ × ℕ)
clocks =
    (30, 31)
    ∷ (32, 33)
    ∷ (34, 35)
    ∷ (36, 37)
    ∷ (38, 39)
    ∷ (40, 41)
    ∷ (42, 43)
    ∷ (44, 45)
    ∷ (46, 47)
    ∷ (48, 49)
    ∷ (50, 51)
    ∷ []

start-JustStarted : JustStarted table table-Transactions to_seq 2 0 read_clock start
start-JustStarted = record {
  empty = empty-IsQueue;
  runs = refl;
  stands = refl;
  nothing = refl;
  zero_rows = refl;
}

actions-fresh : AllocatesFresh table table-Transactions to_seq 2 0 read_clock start actions
unfolding empty
actions-fresh = (λ n e. refl, λ a h. (tt, λ b i. tt))

messages-Unpacks : Unpacks 0 clock_bytes read_clock state_ids 200000000 moments
unfolding build_message
messages-Unpacks = (refl, (refl, tt))

actions-Delivers : Delivers (arrivals actions) ((11 ∷ []) ∷ [])
actions-Delivers = (refl, refl, (λ e. cc), tt)

readings-arrive_example :
    (final : Gateway table ℕ) × (turns : List (List Sample)) × (run table to_seq 2 0 read_clock
        start
        (actions ++ writes_all clocks)
      ≡ some final)
    × IsQueue final.intake.queue []
    × (batches turns
        ≡ samples_of 0 clock_bytes read_clock state_ids 200000000 moments (arrivals actions))
    × (final.conn ≡ conn_after table ([], none) turns)
    × (final.conn.0 ≡ [] ++ kept table table-Transactions ([], none) turns)
    × (final.streamed ≡ broadcasts to_seq (shown table ([], none) turns))
unfolding table-Transactions
readings-arrive_example =
    readings-arrive table table-Transactions to_seq 2 0 clock_bytes read_clock state_ids 200000000
      moments first_deadline last_deadline ((11 ∷ []) ∷ []) start actions clocks (omega arith)
      sent_numbers messages-Unpacks state_ids-IsFitting start-JustStarted actions-fresh tt
      actions-Delivers (omega arith) (omega arith) (omega arith)
