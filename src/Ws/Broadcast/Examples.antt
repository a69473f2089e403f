-- ===== src/Ws/Broadcast/Examples.antt =====
-- Broadcasts to three clients, one of them dead and one whose connection fails, and in a cut.
use telemetry_platform_testb.Base.{
  length, ◌+◌, arith, ℕ, ◌+◌, ◌*◌, ◌%◌, ◌^◌, ◌≡◌, ◌⊎◌, refl, true, false, List, [], ◌∷◌, map,
  Option, none, some, arith, ltb, if◌then◌else◌,
}
use telemetry_platform_testb.Ws.Socket.{Sent, took, failure}
use telemetry_platform_testb.Ws.Broadcast.{Client, Server, second_ns, deliver, ws_server_broadcast}
use telemetry_platform_testb.Ws.Broadcast.Delivery.{
  keep, receives, sent_to, whole_frame, places, deliver_lem, broadcast-places,
}
use telemetry_platform_testb.Ws.Broadcast.Impairment.{AllClosed, cut_broadcast}

abbrev clients : List Client
clients =
    record { fd = some 4; alive = true }
    ∷ record { fd = some 5; alive = false }
    ∷ record { fd = some 6; alive = true }
    ∷ []

abbrev server : Server
server = record {
  clients = clients;
  delay_ms = 20;
  jitter_ms = 5;
  drop_pct = 30;
  cut_start_s = 20;
  cut_duration_s = 3;
  reconnect_mode_close = true;
  start_mono_ns = 1000;
  experiment_anchor_set = true;
  cut_close_fired = false;
  dropped_msgs = 0;
  delayed_msgs = 0;
  cut_msgs = 0;
  closed_fds = [];
}

abbrev in_cut : ℕ
in_cut = 21 * second_ns

abbrev answers : Option ℕ → List Sent
answers none = []
answers (some fd) = if ltb fd 6 then took 9 ∷ took 9 ∷ [] else took 0 ∷ failure ∷ []

abbrev text : List ℕ
text = 104 ∷ 105 ∷ []

deliver_lem_example :
    ((deliver text answers clients []).0 ≡ keep (receives text answers) clients)
    × ((deliver text answers clients []).2
        ≡ map (sent_to text answers) (keep (λ c. c.alive) clients))
    × (map (sent_to text answers) (keep (receives text answers) clients)
        ≡ map (whole_frame text answers) (keep (receives text answers) clients))
deliver_lem_example = deliver_lem text answers clients [] (omega arith)

broadcast-places_example :
    places 6 (ws_server_broadcast server 1000 77 3 (λ s. s) text answers).0 ≡ places 6 server
broadcast-places_example = broadcast-places 6 server 1000 77 3 (λ s. s) text answers (λ t. refl)

cut_broadcast_example :
    let out = ws_server_broadcast server in_cut 0 0 (λ s. s) text answers in
    (out.1 ≡ [])
    × (out.0.cut_msgs ≡ (0 + 1) % 2 ^ 64)
    × (((true ≡ true)
          × (false ≡ false)
          × AllClosed out.0.clients
          × (length out.0.clients ≡ 3)
          × (out.0.closed_fds ≡ 6 ∷ 5 ∷ 4 ∷ [])
          × (out.0.cut_close_fired ≡ true))
        ⊎ (((true ≡ false) ⊎ (false ≡ true)) × (out.0.clients ≡ clients) × (out.0.closed_fds ≡ [])))
cut_broadcast_example =
    cut_broadcast server in_cut 0 0 (λ s. s) text answers refl (omega arith) (omega arith)
