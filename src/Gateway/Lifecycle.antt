-- ===== src/Gateway/Lifecycle.antt =====
-- The start and the stop of the gateway: telemetry_gateway_start and telemetry_gateway_stop of
-- src/core/telemetry_gateway.c, with src/core/mqtt_client.c, the handles of src/core/db_sqlite.c and
-- the start and stop of src/core/ws_server.c, as what they take from the system and give back. To give
-- back what is not held is undefined in C, and makes the result none here. What the calls of the system
-- answer are arguments.
pub mod Owning
pub mod Release
pub mod Examples
use telemetry_platform_testb.Base.{
  ℕ, zero, suc, ◌+◌, Bool, true, false, List, [], ◌∷◌, Option, none, some, ◌>>=◌, ◌&&◌, ltb,
  if◌then◌else◌,
}

-- How many of each resource are held: the structs of the gateway and of the server, connections to a database
-- and prepared statements, listening sockets, clients of mosquitto, threads to join, and other blocks.
pub record Held : Type 0 where
  pub gateways : ℕ
  pub servers : ℕ
  pub databases : ℕ
  pub statements : ℕ
  pub sockets : ℕ
  pub clients : ℕ
  pub threads : ℕ
  pub blocks : ℕ

abbrev pub debit : ℕ → Option ℕ
debit zero = none
debit (suc n) = some n

abbrev pub debit_if : Bool → ℕ → Option ℕ
debit_if true n = debit n
debit_if false n = some n

-- sqlite3_open_v2 gives a handle also for an error, unless memory is out.
pub data Opened : Type 0 where
  open_ok open_error no_handle : Opened

-- pthread_create: done, or failed with the identifier left alone or written.
pub data Created : Type 0 where
  created : Created
  refused : Bool → Created

pub record Answers : Type 0 where
  pub room : Bool
  pub writer : Opened
  pub schema : Bool
  pub prepare : Bool
  pub reader : Opened
  pub wal : Bool
  pub server_room : Bool
  pub socket : Bool
  pub socket_fd : ℕ
  pub bind : Bool
  pub listen : Bool
  pub accept_th : Bool
  pub writer_th : Created
  pub stats_enabled : Bool
  pub stats_th : Created
  pub mosq_new : Bool
  pub connect : Bool
  pub loop_start : Bool

-- The fields of struct telemetry_gateway that are not NULL.
pub record Handles : Type 0 where
  pub dbw : Bool
  pub ins_state : Bool
  pub dbr : Bool
  pub ws : Bool
  pub server_fd : ℕ
  pub writer_th : Bool
  pub stats_th : Bool
  pub mosq : Bool

-- What a call returns, without the sign, with the handles that it leaves.
abbrev pub Opening : Type 0
Opening = ℕ × Handles × Held

pub db_writer_open : Answers → Handles → Held → Opening
db_writer_open a h l =
    let has = record h { dbw = true } in
    let took = record l { databases = suc l.databases } in
    elim a.writer [
      | no_handle ↦ (1, h, l)
      | open_error ↦ (1, has, took)
      | open_ok ↦
          if a.schema
          then (if a.prepare
              then (
                0,
                record has { ins_state = true },
                record took { statements = suc l.statements },
              )
              else (3, has, took))
          else (2, has, took)
    ]

pub db_writer_close : Handles → Held → Option Held
db_writer_close h l = debit_if h.ins_state l.statements >>= λ s.
    debit_if h.dbw l.databases >>= λ d. some (record l { statements = s; databases = d })

pub db_reader_open : Answers → Handles → Held → Opening
db_reader_open a h l =
    let has = record h { dbr = true } in
    let took = record l { databases = suc l.databases } in
    elim a.reader [
      | no_handle ↦ (1, h, l)
      | open_error ↦ (1, has, took)
      | open_ok ↦ if a.wal then (0, has, took) else (2, has, took)
    ]

pub db_reader_close : Handles → Held → Option Held
db_reader_close h l = debit_if h.dbr l.databases >>= λ d. some (record l { databases = d })

-- The struct, the socket and the thread of the server.
pub ws_server_start : Answers → Handles → Held → Option Opening
ws_server_start a h l =
    let block = record l { servers = suc l.servers } in
    let bound = record block { sockets = suc l.sockets } in
    let undo : ℕ → Option Opening = λ code. debit bound.sockets >>= λ s.
    debit bound.servers >>= λ b. some (code, h, record l { sockets = s; servers = b }) in
    if a.server_room
    then (if a.socket
        then (if a.bind
            then (if a.listen
                then (if a.accept_th
                    then some (
                      0,
                      record h { ws = true; server_fd = a.socket_fd },
                      record bound { threads = suc l.threads },
                    )
                    else undo 5)
                else undo 4)
            else undo 3)
        else (debit block.servers >>= λ b. some (2, h, record l { servers = b })))
    else some (1, h, l)

-- `if(g->ws) ws_server_stop(g->ws);` without the clients of the server; `if (s->server_fd > 0)` leaves a
-- socket with descriptor 0 open.
pub ws_server_stop : Handles → Held → Option Held
ws_server_stop h l = debit_if (h.ws && ltb 0 h.server_fd) l.sockets >>= λ s.
    debit_if h.ws l.threads >>= λ t.
    debit_if h.ws l.servers >>= λ b. some (record l { sockets = s; threads = t; servers = b })

unfoldable pub mqtt_client_connect : Answers → Handles → Held → Option Opening
mqtt_client_connect a h l =
    let took = record l { clients = suc l.clients } in
    let undo : ℕ → Option Opening =
      λ code. debit took.clients >>= λ c. some (code, h, record l { clients = c }) in
    if a.mosq_new
    then (if a.connect
        then (if a.loop_start then some (0, record h { mosq = true }, took) else undo 3)
        else undo 2)
    else some (1, h, l)

unfoldable pub mqtt_client_close : Handles → Held → Option Held
mqtt_client_close h l = debit_if h.mosq l.clients >>= λ c. some (record l { clients = c })

-- The loop over the queue: of each node, whether it has a raw copy.
pub free_queue : List Bool → ℕ → Option ℕ
free_queue [] n = some n
free_queue (raw ∷ later) n = debit_if raw n >>= λ n. debit n >>= λ n. free_queue later n

pub telemetry_gateway_stop : Handles → List Bool → Held → Option Held
unfolding mqtt_client_close ws_server_stop db_reader_close db_writer_close free_queue
telemetry_gateway_stop h queue l = debit_if h.writer_th l.threads >>= λ t.
    debit_if h.stats_th t >>= λ t. mqtt_client_close h (record l { threads = t }) >>= λ l.
    ws_server_stop h l >>= λ l. db_reader_close h l >>= λ l. db_writer_close h l >>= λ l.
    free_queue queue l.blocks >>= λ n.
    debit l.gateways >>= λ g. some (record l { blocks = n; gateways = g })

-- What telemetry_gateway_start comes to: the value it returns, without the sign, or the gateway.
pub data Started : Type 0 where
  failed : ℕ → Started
  running : Handles → Started

-- `telemetry_gateway_stop(g); return code;`, in front of the first message.
pub give_up : ℕ → Handles → Held → Option (Started × Held)
unfolding telemetry_gateway_stop
give_up code h l = telemetry_gateway_stop h [] l >>= λ l. some (failed code, l)

-- What pthread_create leaves: whether it worked, and whether the identifier is set.
abbrev pub thread_of : Created → Bool × Bool
thread_of created = (true, true)
thread_of (refused written) = (false, written)

abbrev pub nothing_open : Handles
nothing_open = record {
  dbw = false;
  ins_state = false;
  dbr = false;
  ws = false;
  server_fd = 0;
  writer_th = false;
  stats_th = false;
  mosq = false;
}

-- The connection to the broker.
pub start_mqtt : Answers → Handles → Held → Option (Started × Held)
unfolding give_up mqtt_client_connect
start_mqtt a h l = mqtt_client_connect a h l >>= λ o. elim o.0 [
  | zero ↦ some (running o.1, o.2)
  | suc _ ↦ give_up 6 o.1 o.2
]

-- The threads of the writer and of the statistics.
pub start_threads : Answers → Handles → Held → Option (Started × Held)
unfolding give_up start_mqtt
start_threads a h l = elim a.writer_th [
  | refused written ↦ give_up 5 (record h { writer_th = written }) l
  | created ↦
      let h1 = record h { writer_th = true } in
      let l1 = record l { threads = suc l.threads } in
      if a.stats_enabled
      then (elim a.stats_th [
        | created ↦
            start_mqtt a (record h1 { stats_th = true }) (record l1 { threads = suc l1.threads })
        | refused written ↦ start_mqtt a (record h1 { stats_th = written }) l1
      ])
      else start_mqtt a h1 l1
]

pub telemetry_gateway_start : Answers → Held → Option (Started × Held)
unfolding give_up db_writer_open db_reader_open ws_server_start start_threads
telemetry_gateway_start a l =
    let took = record l { gateways = suc l.gateways } in
    let w = db_writer_open a nothing_open took in
    let r = db_reader_open a w.1 w.2 in
    let onward = ws_server_start a r.1 r.2 >>= λ o. elim o.0 [
      | zero ↦ start_threads a o.1 o.2
      | suc _ ↦ give_up 4 o.1 o.2
    ] in
    let reader : Option (Started × Held) = elim r.0 [ zero ↦ onward | suc _ ↦ give_up 3 r.1 r.2 ] in
    let writer : Option (Started × Held) = elim w.0 [ zero ↦ reader | suc _ ↦ give_up 2 w.1 w.2 ] in
    if a.room then writer else some (failed 1, l)
