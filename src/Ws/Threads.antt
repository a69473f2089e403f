-- ===== src/Ws/Threads.antt =====
-- The life of a client in src/core/ws_server.c, over all threads: accept_thread allocates it and starts
-- client_thread, which closes it, calls client_remove and frees it; ws_server_broadcast and
-- ws_close_all_clients work on the list at the same time. An action is what runs under one hold of the
-- mutex, or between two; the pointer of a client names its thread. Memory that is freed while a thread
-- still uses it is not handed out again.
pub mod Lifetime
pub mod Steps
pub mod Loops
pub mod Endings
pub mod Freed
pub mod Closing
pub mod Finish
mod Examples
use telemetry_platform_testb.Base.{
  ℕ, zero, suc, Bool, true, false, ◌&&◌, List, [], ◌∷◌, Option, none, some, ◌==◌, ◌>>=◌,
  if◌then◌else◌,
}
use telemetry_platform_testb.Ws.Broadcast.{Client}

-- Where client_thread stands: in the handshake or the loop; behind the loop; behind close(); behind
-- client_remove; there is no such thread. For an `unstarted` client there is none either: accept_thread has
-- linked it, pthread_create has failed, and accept_thread itself is to do what the thread would do last.
pub data Pc : Type 0 where
  running leaving removing freeing absent unstarted : Pc

abbrev pub position : Pc → ℕ
position running = 0
position leaving = 1
position removing = 2
position freeing = 3
position absent = 4
position unstarted = 5

abbrev pub stands_at : Pc → Pc → Bool
stands_at a b = position a == position b

-- What malloc and free know of each pointer, the list `clients`, and the threads.
pub record World : Type 0 where
  pub cell : ℕ → Option Client
  pub clients : List ℕ
  pub thread : ℕ → Pc

abbrev pub put_at {ℓ} : {A : Type ℓ} → (ℕ → A) → ℕ → A → ℕ → A
put_at f p a q = if p == q then a else f q

-- An access to memory that is not allocated is a fault.
pub data Outcome : Type 0 where
  fault : Outcome
  next : World → Outcome

abbrev pub of_option : Option World → Outcome
of_option none = fault
of_option (some s) = next s

-- client_remove: the loop reads `next` of each client in front of `p`, and of `p` itself.
pub unlinked : (ℕ → Option Client) → ℕ → List ℕ → Option (List ℕ)
unlinked cell p [] = some []
unlinked cell p (q ∷ qs) =
    let rest = unlinked cell p qs >>= λ r. some (q ∷ r) in
    cell q >>= λ c. if q == p then some qs else rest

-- The loop of ws_server_broadcast: `takes` tells for which clients ws_send_text succeeds. A client that
-- is dead, or does not take the text, leaves the list and is freed.
pub sweep : (ℕ → Bool) → (ℕ → Option Client) → List ℕ → Option ((ℕ → Option Client) × List ℕ)
sweep takes cell [] = some (cell, [])
sweep takes cell (p ∷ ps) =
    let keep = sweep takes cell ps >>= λ r. some (r.0, p ∷ r.1) in
    let drop = sweep takes (put_at cell p none) ps in
    cell p >>= λ c. if c.alive && takes p then keep else drop

-- The loop of ws_close_all_clients.
pub shut : (ℕ → Option Client) → List ℕ → Option (ℕ → Option Client)
shut cell [] = some cell
shut cell (p ∷ ps) =
    cell p >>= λ c. shut (put_at cell p (some (record { fd = none; alive = false }))) ps

-- The loop of ws_server_stop, on the list that it has taken away; it runs without the mutex, and is one
-- action here.
pub free_all : (ℕ → Option Client) → List ℕ → Option (ℕ → Option Client)
free_all cell [] = some cell
free_all cell (p ∷ ps) = cell p >>= λ c. free_all (put_at cell p none) ps

pub data Action : Type 0 where
  -- accept_thread takes a connection and calloc returns a pointer.
  accepts : ℕ → ℕ → Action
  -- The same where pthread_create fails.
  strands : ℕ → ℕ → Action
  -- One turn of client_thread: the handshake or a frame, after which it goes on or not.
  works : ℕ → Bool → Action
  abandons closes unlinks frees : ℕ → Action
  broadcasts : (ℕ → Bool) → Action
  cuts stops : Action
  -- `pthread_detach(c->th)`, by accept_thread, at any time behind the start of the thread.
  detaches : ℕ → Action

pub accept_client : ℕ → ℕ → Pc → World → World
accept_client p fd pc s = record {
  cell = put_at s.cell p (some (record { fd = some fd; alive = true }));
  clients = p ∷ s.clients;
  thread = put_at s.thread p pc;
}

-- `while(s->running && c->alive)`, and a turn of the loop.
pub work : ℕ → Bool → World → Option World
work p on s = s.cell p >>= λ c.
    some (if c.alive && on then s else record s { thread = put_at s.thread p leaving })

-- `c->alive = 0; if(c->fd >= 0) { close(c->fd); c->fd = -1; }`
pub close_client : ℕ → World → Option World
close_client p s = s.cell p >>= λ c. some (record s {
  cell = put_at s.cell p (some (record { fd = none; alive = false }));
  thread = put_at s.thread p removing;
})

-- `c->alive = 0; close(cfd);` of accept_thread, which leaves c->fd as it is.
pub abandon_client : ℕ → World → Option World
abandon_client p s = s.cell p >>= λ c. some (record s {
  cell = put_at s.cell p (some (record c { alive = false }));
  thread = put_at s.thread p removing;
})

pub client_remove : ℕ → World → Option World
unfolding unlinked
client_remove p s = unlinked s.cell p s.clients >>= λ l.
    some (record s { clients = l; thread = put_at s.thread p freeing })

-- free(c), and the end of the thread.
pub free_client : ℕ → World → Option World
free_client p s = s.cell p >>= λ c.
    some (record s { cell = put_at s.cell p none; thread = put_at s.thread p absent })

-- calloc returns no pointer that is in use, and an action is one of the thread that stands before it.
pub perform : Action → World → Outcome
unfolding accept_client work abandon_client close_client client_remove free_client sweep shut
    free_all
perform (accepts p fd) s =
    if stands_at absent (s.thread p) then next (accept_client p fd running s) else next s
perform (strands p fd) s =
    if stands_at absent (s.thread p) then next (accept_client p fd unstarted s) else next s
perform (abandons p) s =
    if stands_at unstarted (s.thread p) then of_option (abandon_client p s) else next s
perform (works p on) s = if stands_at running (s.thread p) then of_option (work p on s) else next s
perform (closes p) s =
    if stands_at leaving (s.thread p) then of_option (close_client p s) else next s
perform (unlinks p) s =
    if stands_at removing (s.thread p) then of_option (client_remove p s) else next s
perform (frees p) s = if stands_at freeing (s.thread p) then of_option (free_client p s) else next s
perform (broadcasts takes) s =
    of_option (sweep takes s.cell s.clients >>= λ r. some (record s { cell = r.0; clients = r.1 }))
perform (detaches p) s = of_option (s.cell p >>= λ c. some s)
perform cuts s = of_option (shut s.cell s.clients >>= λ c. some (record s { cell = c }))
perform stops s =
    of_option (free_all s.cell s.clients >>= λ c. some (record s { cell = c; clients = [] }))

pub perform_all : List Action → World → Outcome
unfolding perform
perform_all [] s = next s
perform_all (a ∷ later) s = elim (perform a s) [ fault ↦ fault | next t ↦ perform_all later t ]
