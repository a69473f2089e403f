-- ===== src/Lib.antt =====
-- The telemetry platform testbed. A simulated robot keeps the readings of its sensors in a cache,
-- snapshots the cache at a fixed rate and publishes each snapshot over MQTT as a protobuf message. The
-- gateway receives the messages, queues them, stores them in SQLite in batches, and broadcasts each as JSON
-- to browsers over a WebSocket server of its own, which can impair the broadcast on purpose (delay,
-- jitter, drops, a cut) and answers history requests from the database.
--
-- The modules, with the code they model, by path from the root of the repository:
--   Base       names of the libraries, Boolean tests, lists, bytes and integers for all modules
--   Pack       include/pack_le.h and the payloads of src/sensors/imu_sensor.c and tilt_sensor.c
--   Types      include/telemetry_types.h and the structures of include/generated/robot_telemetry.pb-c.h
--   Cache      src/core/telemetry_cache.c: one function per set and get; each call holds the mutex, so
--              what threads do to the cache is a sequence of calls
--   Tick       include/time_utils.h: the next deadline
--   Publisher  src/core/telemetry_state_pub.c: the message built from a snapshot, and the
--              rounds of the thread
--   Journey    the way of the readings from the publisher into the gateway's table and stream
--   Starting   the *_start functions of src/sensors/*.c and of src/core/telemetry_state_pub.c, and what their
--              threads take and give back around the loop
--   Gateway    src/core/telemetry_gateway.c: Queue (queue_push and queue_pop_batch on an explicit heap of
--              nodes, where none is an access to freed memory), Message (on_message), Writer (a round
--              of writer_thread), Run (the callback, the writer thread and the stop, in any order on
--              the state that they share), Statistics (the lines of stats_thread) and Lifecycle
--              (telemetry_gateway_start and telemetry_gateway_stop, with
--              src/core/mqtt_client.c, the opening and closing of src/core/db_sqlite.c and the start and
--              stop of src/core/ws_server.c, as what they take from the system and give back)
--   Sensors    src/sensors/*.c: Signals and Motor (a round of the two motor threads), Readings (a round of
--              the IMU and of the tilt thread)
--   Ws         src/core/ws_server.c: Socket (recv_all, send_all), Frame (ws_send_text, ws_send_control,
--              ws_recv_frame), Sha1, Base64, Request (ws_handshake and the parsing of requests),
--              Session (what client_thread reads and writes), Threads (the life of a client: accept_thread,
--              client_thread, client_remove and the loops over the clients, as actions on a shared
--              world) and Broadcast (the impairments and ws_server_broadcast)
--   Db         src/core/db_sqlite.c: StrBuf (the growing string), Schema (db_ensure_schema and the
--              migrations), Rows (the bindings of db_writer_insert_state; in Rows/Json the printing of a
--              row, and telemetry_state_to_json_alloc of src/core/telemetry_gateway.c) and History
--              (db_reader_history_last_json)
--   Libc       what the program uses of the C library on texts: strtol, %d, getenv and setenv
--   Env        the settings that telemetry_gateway_start and ws_server_start read from the environment
--   App        src/apps/telemetry_gateway_main.c (GatewayMain: the command line, how it reaches the gateway
--              through the environment, and main from argv to the value it returns),
--              src/apps/robot_main.c (RobotMain: the command line, and the threads that main starts and
--              joins) and src/apps/state_dump.c (StateDump: what is printed of a message)
-- The functions keep the names of the code. Publisher feeds Gateway/Message, which feeds Gateway/Queue, from
-- which Gateway/Writer takes batches; it stores them through the interface Database, and what it
-- streams is what Rows/Json prints and Ws/Broadcast sends.
-- Gateway/Run joins Message, Queue and Writer: the queue is taken under q_mu, so a batch is taken in one
-- action.
--
-- Ws/Session puts Ws/Request, Ws/Frame and the history together; App/GatewayMain and Env are joined by the
-- environment; Sensors fill the cache through Cache, with the payloads of Pack and the deadlines of Tick.
--
-- Parameters of the model: mosquitto, protobuf-c's unpack, SQLite, printf, malloc and realloc (which sizes
-- they grant), the clocks, rand() and rand_r, atoi and atof, the arithmetic on double with <math.h> (in
-- Sensors and Gateway/Statistics; elsewhere floating point numbers are a type that is only copied), and the answers
-- of recv and send, which are lists of events.
--
-- What is assumed of them is named: Transactions (Gateway/Writer/Rounds) says what SQLite documents of a
-- transaction, which a failing statement may end; Faithful (Db/Rows/Replay) that a column gives back what it
-- holds, but for a NaN; Documented (Db/Schema/Upgrade) what table_info and user_version answer, failures
-- included; and the history is about a SELECT that gives the last rows, newest first. What pthread_create
-- leaves in an identifier when it fails is not assumed.
--
-- Bounds: an unsigned integer that can wrap around is computed modulo 2 ^ w. Loops are structural
-- recursion, or recursion on fuel with a theorem that it suffices: the deadline's carry loop, the
-- doubling of the string's capacity (it at least doubles, so as many turns as bytes are enough),
-- SHA-1's loop over whole blocks (one turn for each byte is more than enough), and the loop of
-- client_thread (each frame takes at least two bytes off the stream, so one turn more than there are
-- bytes is enough). The search for a header of a request has the length of the text as fuel, and each
-- turn takes a line off it; an int has at most ten digits.
--
-- Not modelled: the signal handlers; the calls of mosquitto in state_dump; the generated protobuf
-- code, the dashboard and the analysis scripts.
mod Base
pub mod Libc
pub mod Pack
pub mod Types
pub mod Cache
pub mod Tick
pub mod Gateway
pub mod Journey
pub mod Publisher
pub mod Sensors
pub mod Starting
pub mod Ws
pub mod Db
pub mod Env
pub mod App
