-- ===== src/Gateway/Run/Examples.antt =====
-- A gateway that receives a message that it queues, one that does not unpack and one that finds no node,
-- and then drains its queue or is stopped. The database takes everything.
use telemetry_platform_testb.Base.{
  Bool, if◌then◌else◌, ℕ, ◌≡◌, refl, true, false, List, [], ◌∷◌, ◌++◌, Option, none, some, arith,
  length, same_string,
}
use telemetry_platform_testb.Base.Int.{pos}
use telemetry_platform_testb.Types.{TelemetryMsg, TelemetryState}
use telemetry_platform_testb.Cache.{init}
use telemetry_platform_testb.Publisher.{PubArgs, build_message}
use telemetry_platform_testb.Gateway.Queue.{empty}
use telemetry_platform_testb.Gateway.Queue.Refine.{IsQueue, empty-IsQueue}
use telemetry_platform_testb.Gateway.Message.{topic_telemetry_state}
use telemetry_platform_testb.Gateway.Writer.{Database, broadcasts}
use telemetry_platform_testb.Gateway.Writer.Rounds.{Transactions}
use telemetry_platform_testb.Gateway.Run.{
  testing, ended, Action, receives, writes, stops, Gateway, run,
}
use telemetry_platform_testb.Gateway.Run.Turns.{batches, conn_after, kept, shown}
use telemetry_platform_testb.Gateway.Run.Steps.{Accounted}
use telemetry_platform_testb.Gateway.Run.Accounts.{
  accepted, AllocatesFresh, JustStarted, run-accounts,
}
use telemetry_platform_testb.Gateway.Run.Reaching.{writes_all}
use telemetry_platform_testb.Gateway.Run.Progress.{run-drains, stop-ends}

abbrev pub Sample : Type 0
Sample = TelemetryState ℕ

-- The rows, and those of the transaction if there is one.
abbrev pub Table : Type 0
Table = List Sample × Option (List Sample)

abbrev pub insert_row : Sample → Table → Bool × Table
insert_row s (rows, none) = (true, (rows ++ s ∷ [], none))
insert_row s (rows, some new) = (true, (rows, some (new ++ s ∷ [])))

abbrev pub commit_rows : Table → Bool × Table
commit_rows (rows, none) = (false, (rows, none))
commit_rows (rows, some new) = (true, (rows ++ new, none))

abbrev pub new_rows : Table → List Sample
new_rows (rows, none) = []
new_rows (rows, some new) = new

abbrev pub has_transaction : Table → Bool
has_transaction (rows, none) = false
has_transaction (rows, some new) = true

pub insert_row-rows :
    (s : Sample) (d : Table) → has_transaction d ≡ true → (insert_row s d).1.0 ≡ d.0
insert_row-rows s (rows, none) h = absurd cc
insert_row-rows s (rows, some new) h = refl

pub insert_row-open :
    (s : Sample) (d : Table)
    → has_transaction d ≡ true
    → (insert_row s d).0 ≡ true
    → (has_transaction (insert_row s d).1 ≡ true)
      × (new_rows (insert_row s d).1 ≡ new_rows d ++ s ∷ [])
insert_row-open s (rows, none) h k = absurd cc
insert_row-open s (rows, some new) h k = (refl, refl)

pub insert_row-alone :
    (s : Sample) (d : Table)
    → has_transaction d ≡ false
    → (has_transaction (insert_row s d).1 ≡ false)
      × ((insert_row s d).1.0 ≡ (if (insert_row s d).0 then d.0 ++ s ∷ [] else d.0))
insert_row-alone s (rows, none) h = (refl, refl)
insert_row-alone s (rows, some new) h = absurd cc

pub commit_rows-rows :
    (d : Table)
    → has_transaction d ≡ true
    → (commit_rows d).1.0 ≡ (if (commit_rows d).0 then d.0 ++ new_rows d else d.0)
commit_rows-rows (rows, none) h = absurd cc
commit_rows-rows (rows, some new) h = refl

abbrev pub table : Database Sample
table = record {
  Db = List Sample × Option (List Sample);
  begin = λ d. (true, (d.0, some []));
  insert = insert_row;
  commit = commit_rows;
  rollback = λ d. (d.0, none);
}

unfoldable pub table-Transactions : Transactions table
table-Transactions = record {
  rows = λ d. d.0;
  open_rows = new_rows;
  is_open = has_transaction;
  begin_rows = λ d. refl;
  begin_open = λ d h. (refl, refl);
  insert_rows = insert_row-rows;
  insert_open = insert_row-open;
  insert_alone = insert_row-alone;
  commit_rows = commit_rows-rows;
  rollback_rows = λ d. refl;
}

abbrev pub to_seq : Sample → Option ℕ
to_seq s = some s.seq

abbrev robot : PubArgs
robot = record { robot_id = []; imu_id = []; tilt_id = []; motor1_id = []; motor2_id = [] }

abbrev unpack : List ℕ → Option (TelemetryMsg ℕ)
unpack [] = none
unpack (b ∷ bs) = some (build_message robot (record (init 0) { seq = b }) 5)

abbrev pub start : Gateway table ℕ
start = record {
  intake = record { running = true; rx_msgs = 0; rx_bytes = 0; queue = empty };
  conn = ([], none);
  stats = record { db_rows = 0; commit_count = 0; commit_ns_sum = 0; commit_ns_max = 0 };
  writer = testing;
  streamed = [];
}

abbrev message : List ℕ → Option ℕ → Action
message payload slot =
    receives (record { now_realtime_ns = pos 9; raw_room = false; node = slot })
      (record { topic = some topic_telemetry_state; payload = payload })

abbrev actions : List Action
actions = message (7 ∷ []) (some 3) ∷ writes 10 20 ∷ message [] none ∷ message (4 ∷ []) none ∷ []

start-JustStarted : JustStarted table table-Transactions to_seq 2 0 unpack start
start-JustStarted = record {
  empty = empty-IsQueue;
  runs = refl;
  stands = refl;
  nothing = refl;
  zero_rows = refl;
}

actions-fresh : AllocatesFresh table table-Transactions to_seq 2 0 unpack start actions
unfolding empty
actions-fresh = (λ n e. refl, λ a h. (tt, λ b i. (λ n e. cc, λ c j. (λ n e. cc, λ d k. tt))))

run-accounts_example :
    (final : Gateway table ℕ) × (run table to_seq 2 0 unpack start actions ≡ some final)
    × Accounted table table-Transactions to_seq ([], none) (accepted 0 unpack true actions) final
    × (final.intake.running ≡ true)
run-accounts_example =
    run-accounts table table-Transactions to_seq 2 0 unpack start actions start-JustStarted
      actions-fresh (omega arith)

abbrev clocks : List (ℕ × ℕ)
clocks =
    (30, 31)
    ∷ (32, 33)
    ∷ (34, 35)
    ∷ (36, 37)
    ∷ (38, 39)
    ∷ (40, 41)
    ∷ (42, 43)
    ∷ (44, 45)
    ∷ (46, 47)
    ∷ (48, 49)
    ∷ (50, 51)
    ∷ (52, 53)
    ∷ (54, 55)
    ∷ (56, 57)
    ∷ []

run-drains_example :
    (final : Gateway table ℕ) × (turns : List (List Sample)) × (run table to_seq 2 0 unpack start
        (actions ++ writes_all clocks)
      ≡ some final)
    × IsQueue final.intake.queue []
    × (batches turns ≡ accepted 0 unpack true actions)
    × (final.conn ≡ conn_after table ([], none) turns)
    × (final.conn.0 ≡ [] ++ kept table table-Transactions ([], none) turns)
    × (final.streamed ≡ broadcasts to_seq (shown table ([], none) turns))
unfolding table-Transactions
run-drains_example =
    run-drains table table-Transactions to_seq 2 0 unpack start actions clocks start-JustStarted
      actions-fresh refl (omega arith) (omega arith) (omega arith)

stop-ends_example :
    (final : Gateway table ℕ) × (turns : List (List Sample)) × (left : List Sample) × (run table
        to_seq 2 0 unpack start
        (actions ++ stops ∷ writes_all ((30, 31) ∷ (32, 33) ∷ (34, 35) ∷ []))
      ≡ some final)
    × (final.writer ≡ ended)
    × IsQueue final.intake.queue left
    × (batches turns ++ left ≡ accepted 0 unpack true actions)
    × (final.conn ≡ conn_after table ([], none) turns)
    × (final.conn.0 ≡ [] ++ kept table table-Transactions ([], none) turns)
    × (final.streamed ≡ broadcasts to_seq (shown table ([], none) turns))
unfolding table-Transactions
stop-ends_example =
    stop-ends table table-Transactions to_seq 2 0 unpack start actions (30, 31) (32, 33) (34, 35)
      start-JustStarted actions-fresh (omega arith)

-- The sample of the first message is to be queued, and no other.
one_accepted : length (accepted 0 unpack true actions) ≡ 1
unfolding same_string
one_accepted = refl
