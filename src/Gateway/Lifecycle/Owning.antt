-- ===== src/Gateway/Lifecycle/Owning.antt =====
-- What a gateway of src/core/telemetry_gateway.c owns, and that telemetry_gateway_stop gives it back.
use telemetry_platform_testb.Base.{
  ℕ, suc, ◌≡◌, ◌⊎◌, inl, refl, Bool, true, false, List, [], ◌∷◌, Option, some, ◌>>=◌, ◌&&◌, ltb,
}
use telemetry_platform_testb.Gateway.Lifecycle.{
  Held, debit_if, Handles, mqtt_client_close, ws_server_stop, db_reader_close, db_writer_close,
  free_queue, telemetry_gateway_stop, Started, failed, running, give_up,
}

abbrev pub credit : Bool → ℕ → ℕ
credit true n = suc n
credit false n = n

credited : (b : Bool) (n : ℕ) → debit_if b (credit b n) ≡ some n
credited true n = refl
credited false n = refl

abbrev pub credit_queue : List Bool → ℕ → ℕ
credit_queue [] n = n
credit_queue (raw ∷ later) n = credit raw (suc (credit_queue later n))

free_queue-credit : (queue : List Bool) (n : ℕ) → free_queue queue (credit_queue queue n) ≡ some n
unfolding free_queue
free_queue-credit [] n = refl
free_queue-credit (raw ∷ later) n =
    rw (credited raw (suc (credit_queue later n)), ◌>>=◌) (free_queue-credit later n)

-- What a gateway with these handles and this queue holds, over what is held besides.
abbrev pub owning : Handles → List Bool → Held → Held
owning h queue l = record {
  gateways = suc l.gateways;
  servers = credit h.ws l.servers;
  databases = credit h.dbr (credit h.dbw l.databases);
  statements = credit h.ins_state l.statements;
  sockets = credit h.ws l.sockets;
  clients = credit h.mosq l.clients;
  threads = credit h.writer_th (credit h.stats_th (credit h.ws l.threads));
  blocks = credit_queue queue l.blocks;
}

-- The socket of the server has a descriptor that the stop closes.
abbrev pub Closable : Handles → Type 0
Closable h = (h.ws && ltb 0 h.server_fd) ≡ h.ws

pub stop-owning :
    (h : Handles) (queue : List Bool) (l : Held)
    → Closable h
    → telemetry_gateway_stop h queue (owning h queue l) ≡ some l
unfolding telemetry_gateway_stop mqtt_client_close ws_server_stop db_reader_close db_writer_close
stop-owning h queue l up =
    rw
      (
        up,
        credited h.writer_th (credit h.stats_th (credit h.ws l.threads)),
        credited h.stats_th (credit h.ws l.threads),
        credited h.mosq l.clients,
        credited h.ws l.sockets,
        credited h.ws l.threads,
        credited h.ws l.servers,
        credited h.dbr (credit h.dbw l.databases),
        credited h.ins_state l.statements,
        credited h.dbw l.databases,
        free_queue-credit queue l.blocks,
      )
      refl

-- A start returns an error and holds nothing, or it returns the gateway with what its handles own.
abbrev pub Ends : Held → Option (Started × Held) → Type 0
Ends l result =
    ((code : ℕ) × (result ≡ some (failed (suc code), l)))
    ⊎ ((h : Handles) × Closable h × (result ≡ some (running h, owning h [] l)))

pub give_up-Ends :
    (code : ℕ) (h : Handles) (l : Held) → Closable h → Ends l (give_up (suc code) h (owning h [] l))
unfolding give_up
give_up-Ends code h l up = inl (code, rw (stop-owning h [] l up, ◌>>=◌) refl)
