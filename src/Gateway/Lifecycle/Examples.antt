-- ===== src/Gateway/Lifecycle/Examples.antt =====
-- Starts and stops of src/core/telemetry_gateway.c.
use telemetry_platform_testb.Base.{
  arith, ◌>>=◌, ℕ, suc, ◌≡◌, ◌⊎◌, refl, true, false, [], ◌∷◌, none, some,
}
use telemetry_platform_testb.Gateway.Lifecycle.{
  Held, open_ok, Created, created, refused, Answers, Handles, telemetry_gateway_stop, failed,
  running, telemetry_gateway_start,
}
use telemetry_platform_testb.Gateway.Lifecycle.Owning.{credit_queue}
use telemetry_platform_testb.Gateway.Lifecycle.Release.{start-stop}

abbrev pub nothing : Held
nothing = record {
  gateways = 0;
  servers = 0;
  databases = 0;
  statements = 0;
  sockets = 0;
  clients = 0;
  threads = 0;
  blocks = 0;
}

-- Everything works but the threads of the writer and of the statistics, as told.
abbrev pub answers : Created → Created → Answers
answers writer stats = record {
  room = true;
  writer = open_ok;
  schema = true;
  prepare = true;
  reader = open_ok;
  wal = true;
  server_room = true;
  socket = true;
  socket_fd = 9;
  bind = true;
  listen = true;
  accept_th = true;
  writer_th = writer;
  stats_enabled = true;
  stats_th = stats;
  mosq_new = true;
  connect = true;
  loop_start = true;
}

-- Everything works.
start-stop_example :
    let a = answers created created in
    let queue = true ∷ false ∷ [] in
    ((code : ℕ) × (telemetry_gateway_start a nothing ≡ some (failed (suc code), nothing)))
    ⊎ ((h : Handles) × (own : Held) × (telemetry_gateway_start a nothing ≡ some (running h, own))
        × (telemetry_gateway_stop h queue (record own { blocks = credit_queue queue own.blocks })
            ≡ some nothing))
start-stop_example =
    start-stop (answers created created) nothing (true ∷ false ∷ []) refl refl (omega arith)

-- When a pthread_create that fails writes the identifier, the stop joins a thread that was never started.
joins_nothing : telemetry_gateway_start (answers (refused true) created) nothing ≡ none
unfolding telemetry_gateway_start
joins_nothing = refl

gives_back :
    telemetry_gateway_start (answers (refused false) created) nothing ≡ some (failed 5, nothing)
unfolding telemetry_gateway_start
gives_back = refl

-- A socket with descriptor 0 is still open behind the stop.
leaves_open :
    (telemetry_gateway_start (record (answers created created) { socket_fd = 0 }) nothing >>= λ r.
    elim r.0 [ failed code ↦ none | running h ↦ telemetry_gateway_stop h [] r.1 ])
    ≡ some (record nothing { sockets = 1 })
unfolding telemetry_gateway_start telemetry_gateway_stop
leaves_open = refl
