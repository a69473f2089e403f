-- ===== src/Ws/Socket.antt =====
-- recv_all and send_all of src/core/ws_server.c. What the system calls answer is a list of events.
pub mod Delivery
mod Examples
use telemetry_platform_testb.Base.{
  ◌>>=◌, ℕ, zero, suc, ◌+◌, ◌-◌, Bool, true, false, List, [], ◌∷◌, ◌++◌, Option, none, some, length,
  take, drop, leb, if◌then◌else◌,
}

-- What recv meets: bytes that have arrived together, of which a call takes at most as many as it
-- asks for; EINTR; the end of the stream; another error. Past the list is the receive timeout.
pub data Arrival : Type 0 where
  chunk : ℕ → List ℕ → Arrival
  interrupted closed failed : Arrival

-- What a call leaves of a chunk stays in front.
abbrev pub left_over : List ℕ → List Arrival → List Arrival
left_over [] es = es
left_over (b ∷ bs) es = chunk b bs ∷ es

-- recv_all: the bytes read and what is left to arrive, or none for -1.
unfoldable pub recv_all : ℕ → List Arrival → Option (List ℕ × List Arrival)
recv_all zero es = some ([], es)
recv_all (suc n) [] = none
recv_all (suc n) (interrupted ∷ es) = recv_all (suc n) es
recv_all (suc n) (closed ∷ es) = none
recv_all (suc n) (failed ∷ es) = none
recv_all (suc n) (chunk b bs ∷ es) =
    let all = recv_all (n - length bs) es >>= λ rest. some (b ∷ (bs ++ rest.0), rest.1) in
    if leb (length bs) n then all else some (b ∷ take n bs, left_over (drop n bs) es)

-- What send answers: it took some bytes (one more than the number, and at most the rest), it was
-- interrupted, or it failed. Past the list it fails.
pub data Sent : Type 0 where
  took : ℕ → Sent
  retry failure : Sent

-- send_all: the bytes that went out, whether all did, and the answers that are left.
unfoldable pub send_all : List ℕ → List Sent → List ℕ × Bool × List Sent
send_all [] ws = ([], true, ws)
send_all (b ∷ bs) [] = ([], false, [])
send_all (b ∷ bs) (retry ∷ ws) = send_all (b ∷ bs) ws
send_all (b ∷ bs) (failure ∷ ws) = ([], false, ws)
send_all (b ∷ bs) (took k ∷ ws) =
    let rest = send_all (drop k bs) ws in (b ∷ (take k bs ++ rest.0), rest.1, rest.2)
