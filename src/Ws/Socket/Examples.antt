-- ===== src/Ws/Socket/Examples.antt =====
-- Reads and writes of src/core/ws_server.c over a stream that is cut into chunks and interrupted.
use telemetry_platform_testb.Base.{◌≡◌, refl, true, List, [], ◌∷◌, some}
use telemetry_platform_testb.Ws.Socket.{
  Arrival, chunk, interrupted, closed, recv_all, Sent, took, retry, failure, send_all,
}

abbrev stream : List Arrival
stream = chunk 1 (2 ∷ []) ∷ interrupted ∷ chunk 3 (4 ∷ 5 ∷ []) ∷ closed ∷ []

cut : recv_all 4 stream ≡ some (1 ∷ 2 ∷ 3 ∷ 4 ∷ [], chunk 5 [] ∷ closed ∷ [])
unfolding recv_all
cut = refl

abbrev answers : List Sent
answers = took 0 ∷ retry ∷ took 5 ∷ failure ∷ []

sends : send_all (1 ∷ 2 ∷ 3 ∷ []) answers ≡ (1 ∷ 2 ∷ 3 ∷ [], true, failure ∷ [])
unfolding send_all
sends = refl
