-- ===== src/Gateway/Lifecycle/Release.antt =====
-- What telemetry_gateway_start and telemetry_gateway_stop of src/core/telemetry_gateway.c leave held.
use telemetry_platform_testb.Base.{
  ℕ, zero, suc, ◌≡◌, ◌⊎◌, inl, inr, refl, sym, subst, ◌∙◌, Bool, true, false, Bool-cases, List, [],
  Option, some, ◌>>=◌, ◌<◌, ltb, lt→ltb,
}
use telemetry_platform_testb.Gateway.Lifecycle.{
  Held, Opened, open_ok, open_error, no_handle, Created, created, refused, Answers, Handles,
  nothing_open, db_writer_open, db_reader_open, ws_server_start, mqtt_client_connect,
  telemetry_gateway_stop, Started, failed, running, give_up, start_mqtt, start_threads,
  telemetry_gateway_start,
}
use telemetry_platform_testb.Gateway.Lifecycle.Owning.{
  credit_queue, owning, stop-owning, Ends, give_up-Ends,
}

-- The handles when the threads are about to start.
abbrev served : ℕ → Handles
served fd = record nothing_open {
  dbw = true;
  ins_state = true;
  dbr = true;
  ws = true;
  server_fd = fd;
}

module _ (a : Answers) (l : Held) (up : ltb 0 a.socket_fd ≡ true) where
  start_mqtt-Ends :
      (stats : Bool)
      → let h = record (served a.socket_fd) { writer_th = true; stats_th = stats } in
        Ends l (start_mqtt a h (owning h [] l))
  unfolding start_mqtt mqtt_client_connect
  start_mqtt-Ends stats =
      let h = record (served a.socket_fd) { writer_th = true; stats_th = stats } in
      elim (Bool-cases a.mosq_new) [
        | inr bad ↦ rw (start_mqtt, mqtt_client_connect, bad) (give_up-Ends 5 h l up)
        | inl made ↦ elim (Bool-cases a.connect) [
          | inr bad ↦ rw (start_mqtt, mqtt_client_connect, made, bad) (give_up-Ends 5 h l up)
          | inl connected ↦ elim (Bool-cases a.loop_start) [
            | inr bad ↦
                rw (start_mqtt, mqtt_client_connect, made, connected, bad) (give_up-Ends 5 h l up)
            | inl loops ↦
                rw (start_mqtt, mqtt_client_connect, made, connected, loops)
                  (inr (record h { mosq = true }, up, refl))
          ]
        ]
      ]

  started_statistics :
      (s : Created)
      → a.writer_th ≡ created
      → a.stats_enabled ≡ true
      → a.stats_th ≡ s
      → s ≡ created
      → Ends l (start_threads a (served a.socket_fd) (owning (served a.socket_fd) [] l))
  unfolding start_threads
  started_statistics created ew enabled es hs =
      rw (start_threads, ew, enabled, es) (start_mqtt-Ends true)
  started_statistics (refused written) ew enabled es hs = absurd cc

  start_threads-Ends :
      (w : Created)
      → a.writer_th ≡ w
      → w ≡ created
      → a.stats_th ≡ created
      → Ends l (start_threads a (served a.socket_fd) (owning (served a.socket_fd) [] l))
  unfolding start_threads
  start_threads-Ends (refused written) ew hw hs = absurd cc
  start_threads-Ends created ew hw hs = elim (Bool-cases a.stats_enabled) [
    | inr off ↦ rw (start_threads, ew, off) (start_mqtt-Ends false)
    | inl enabled ↦ started_statistics a.stats_th ew enabled refl hs
  ]

  -- The server, behind both connections.
  opened : Handles
  opened = record nothing_open { dbw = true; ins_state = true; dbr = true }

  on_server : Option (ℕ × Handles × Held) → Option (Started × Held)
  on_server r = r >>= λ o. elim o.0 [ zero ↦ start_threads a o.1 o.2 | suc _ ↦ give_up 4 o.1 o.2 ]

  server-Ends :
      a.writer_th ≡ created
      → a.stats_th ≡ created
      → Ends l (on_server (ws_server_start a opened (owning opened [] l)))
  unfolding ws_server_start opened on_server
  server-Ends hw hs = elim (Bool-cases a.server_room) [
    | inr bad ↦ rw (on_server, ws_server_start, bad) (give_up-Ends 3 opened l refl)
    | inl e1 ↦ elim (Bool-cases a.socket) [
      | inr bad ↦ rw (on_server, ws_server_start, e1, bad) (give_up-Ends 3 opened l refl)
      | inl e2 ↦ elim (Bool-cases a.bind) [
        | inr bad ↦ rw (on_server, ws_server_start, e1, e2, bad) (give_up-Ends 3 opened l refl)
        | inl e3 ↦ elim (Bool-cases a.listen) [
          | inr bad ↦
              rw (on_server, ws_server_start, e1, e2, e3, bad) (give_up-Ends 3 opened l refl)
          | inl e4 ↦ elim (Bool-cases a.accept_th) [
            | inr bad ↦
                rw (on_server, ws_server_start, e1, e2, e3, e4, bad) (give_up-Ends 3 opened l refl)
            | inl e5 ↦
                rw (on_server, ws_server_start, e1, e2, e3, e4, e5)
                  (start_threads-Ends a.writer_th refl hw hs)
          ]
        ]
      ]
    ]
  ]

  -- The reader, behind the writer.
  written : Handles
  written = record nothing_open { dbw = true; ins_state = true }

  on_reader : ℕ × Handles × Held → Option (Started × Held)
  unfolding on_server
  on_reader r = elim r.0 [
    | zero ↦ on_server (ws_server_start a r.1 r.2)
    | suc _ ↦ give_up 3 r.1 r.2
  ]

  after_reader :
      (r : ℕ × Handles × Held)
      → db_reader_open a written (owning written [] l) ≡ r
      → Ends l (on_reader r)
      → Ends l (on_reader (db_reader_open a written (owning written [] l)))
  after_reader r e ends = subst (λ r. Ends l (on_reader r)) (sym e) ends

  reader-Ends :
      (o : Opened)
      → a.reader ≡ o
      → a.writer_th ≡ created
      → a.stats_th ≡ created
      → Ends l (on_reader (db_reader_open a written (owning written [] l)))
  unfolding db_reader_open written opened on_reader
  reader-Ends no_handle e hw hs =
      after_reader (1, written, owning written [] l) (rw (db_reader_open, e) refl)
        (give_up-Ends 2 written l refl)
  reader-Ends open_error e hw hs =
      after_reader (1, opened, owning opened [] l) (rw (db_reader_open, e) refl)
        (give_up-Ends 2 opened l refl)
  reader-Ends open_ok e hw hs = elim (Bool-cases a.wal) [
    | inr bad ↦
        after_reader (2, opened, owning opened [] l) (rw (db_reader_open, e, bad) refl)
          (give_up-Ends 2 opened l refl)
    | inl wal ↦
        after_reader (0, opened, owning opened [] l) (rw (db_reader_open, e, wal) refl)
          (server-Ends hw hs)
  ]

  -- The writer, behind the struct.
  only_db : Handles
  only_db = record nothing_open { dbw = true }

  on_writer : ℕ × Handles × Held → Option (Started × Held)
  unfolding on_reader
  on_writer w = elim w.0 [ zero ↦ on_reader (db_reader_open a w.1 w.2) | suc _ ↦ give_up 2 w.1 w.2 ]

  after_writer :
      (w : ℕ × Handles × Held)
      → db_writer_open a nothing_open (owning nothing_open [] l) ≡ w
      → Ends l (on_writer w)
      → Ends l (on_writer (db_writer_open a nothing_open (owning nothing_open [] l)))
  after_writer w e ends = subst (λ w. Ends l (on_writer w)) (sym e) ends

  writer-Ends :
      (o : Opened)
      → a.writer ≡ o
      → a.writer_th ≡ created
      → a.stats_th ≡ created
      → Ends l (on_writer (db_writer_open a nothing_open (owning nothing_open [] l)))
  unfolding db_writer_open written only_db on_writer
  writer-Ends no_handle e hw hs =
      after_writer (1, nothing_open, owning nothing_open [] l) (rw (db_writer_open, e) refl)
        (give_up-Ends 1 nothing_open l refl)
  writer-Ends open_error e hw hs =
      after_writer (1, only_db, owning only_db [] l) (rw (db_writer_open, e) refl)
        (give_up-Ends 1 only_db l refl)
  writer-Ends open_ok e hw hs = elim (Bool-cases a.schema) [
    | inr bad ↦
        after_writer (2, only_db, owning only_db [] l) (rw (db_writer_open, e, bad) refl)
          (give_up-Ends 1 only_db l refl)
    | inl schema ↦ elim (Bool-cases a.prepare) [
      | inr bad ↦
          after_writer (3, only_db, owning only_db [] l) (rw (db_writer_open, e, schema, bad) refl)
            (give_up-Ends 1 only_db l refl)
      | inl prepared ↦
          after_writer (0, written, owning written [] l)
            (rw (db_writer_open, e, schema, prepared) refl) (reader-Ends a.reader refl hw hs)
    ]
  ]

-- Whatever the calls of the system answer, as long as neither pthread_create of a thread of the gateway fails
-- and the socket of the server is not descriptor 0: telemetry_gateway_start returns. It returns an error
-- and has given back all that it took, or it returns the gateway; and then telemetry_gateway_stop, with any
-- samples left in the queue, with raw copies or without, gives back all that is held, and nothing twice.
pub start-stop :
    (a : Answers) (l : Held) (queue : List Bool)
    → a.writer_th ≡ created
    → a.stats_th ≡ created
    → 0 < a.socket_fd
    → ((code : ℕ) × (telemetry_gateway_start a l ≡ some (failed (suc code), l)))
      ⊎ ((h : Handles) × (own : Held) × (telemetry_gateway_start a l ≡ some (running h, own))
          × (telemetry_gateway_stop h queue (record own { blocks = credit_queue queue own.blocks })
              ≡ some l))
unfolding telemetry_gateway_start on_writer on_reader on_server
start-stop a l queue hw hs fd = elim (Bool-cases a.room) [
  | inr bad ↦ inl (0, rw (telemetry_gateway_start, bad) refl)
  | inl room ↦
      let up = lt→ltb 0 a.socket_fd fd in
      let starts : telemetry_gateway_start a l
          ≡ on_writer a l up (db_writer_open a nothing_open (owning nothing_open [] l)) =
        rw (telemetry_gateway_start, room) refl in
      elim (writer-Ends a l up a.writer refl hw hs) [
        | inl (code, e) ↦ inl (code, starts ∙ e)
        | inr (h, shut, e) ↦ inr (h, owning h [] l, starts ∙ e, stop-owning h queue l shut)
      ]
]
