-- ===== src/Gateway/Run/Reaching.antt =====
-- Where the steps of writer_thread in src/core/telemetry_gateway.c lead when no other thread runs.
use telemetry_platform_testb.Base.{
  ◌>>=◌, ℕ, suc, ◌+◌, ◌-◌, ◌*◌, ◌^◌, ◌≤◌, ◌<◌, ◌≡◌, refl, ap, ◌∙◌, Bool, true, false, List, [], ◌∷◌,
  Option, some, arith, length, drop, take, length-drop,
}
use telemetry_platform_testb.Types.{TelemetryMsg, TelemetryState}
use telemetry_platform_testb.Gateway.Queue.Refine.{IsQueue}
use telemetry_platform_testb.Gateway.Writer.{Database}
use telemetry_platform_testb.Gateway.Run.{
  Stand, testing, popping, holding, ended, taken, Action, writes, Gateway, act, run,
}
use telemetry_platform_testb.Gateway.Run.Turns.{held, has_ended}
use telemetry_platform_testb.Gateway.Run.Moves.{
  At, Leads, testing-step, popping-step, waiting-step, holding-step, ended-step,
}

-- Steps of the writer thread alone, with their clocks.
abbrev pub writes_all : List (ℕ × ℕ) → List Action
writes_all [] = []
writes_all ((t0, t1) ∷ ts) = writes t0 t1 ∷ writes_all ts

module _ {F J : Type 0} (db : Database (TelemetryState F)) (to_json : TelemetryState F → Option J)
    (max : ℕ) (zero_f : F) (unpack : List ℕ → Option (TelemetryMsg F)) where
  abbrev pub Samples : Type 0
  Samples = List (TelemetryState F)

  abbrev pub go : Gateway db J → List Action → Option (Gateway db J)
  go = run db to_json max zero_f unpack

  abbrev pub Stands : Bool → Samples → Stand (TelemetryState F) → Gateway db J → Type 0
  Stands = At db to_json max zero_f unpack

  -- The steps end in a state of which `P` holds.
  pub record Reaches (P : Gateway db J → Type 0) (result : Option (Gateway db J)) : Type 0 where
    pub final : Gateway db J
    pub returns : result ≡ some final
    pub there : P final

  -- Nothing is queued, and nothing is in the hands of the writer thread.
  abbrev pub IsIdle : Gateway db J → Type 0
  IsIdle f = IsQueue f.intake.queue [] × (held f.writer ≡ [])

  abbrev pub HasEnded : Gateway db J → Type 0
  HasEnded f = f.writer ≡ ended

  then-Reaches :
      (P : Gateway db J → Type 0) {running : Bool} {xs : Samples} {w : Stand (TelemetryState F)}
      (g : Gateway db J) (t0 t1 : ℕ) (ts : List (ℕ × ℕ))
      (l : Leads db to_json max zero_f unpack running xs w
        (act db to_json max zero_f unpack g (writes t0 t1)))
      → Reaches P (go l.next (writes_all ts))
      → Reaches P (go g (writes_all ((t0, t1) ∷ ts)))
  unfolding run
  then-Reaches P g t0 t1 ts l d = record {
    final = d.final;
    returns = rw (l.returns, ◌>>=◌) d.returns;
    there = d.there;
  }

  -- With nothing queued the thread waits.
  popping-IsIdle :
      (ts : List (ℕ × ℕ)) (g : Gateway db J)
      → Stands true [] popping g
      → Reaches IsIdle (go g (writes_all ts))
  unfolding run
  popping-IsIdle [] g a = record { final = g; returns = refl; there = (a.queued, ap held a.stands) }
  popping-IsIdle ((t0, t1) ∷ ts) g a =
      let l = waiting-step db to_json max zero_f unpack true [] g t0 t1 a refl in
      then-Reaches IsIdle g t0 t1 ts l (popping-IsIdle ts l.next l.there)

  testing-IsIdle :
      (ts : List (ℕ × ℕ)) (g : Gateway db J)
      → Stands true [] testing g
      → Reaches IsIdle (go g (writes_all ts))
  unfolding run
  testing-IsIdle [] g a = record { final = g; returns = refl; there = (a.queued, ap held a.stands) }
  testing-IsIdle ((t0, t1) ∷ ts) g a =
      let l = testing-step db to_json max zero_f unpack true [] g t0 t1 a in
      then-Reaches IsIdle g t0 t1 ts l (popping-IsIdle ts l.next l.there)

  holding-taken :
      (x : TelemetryState F) (xs : Samples)
      → 1 ≤ max
      → taken (take max (x ∷ xs)) ≡ holding (x ∷ take (max - 1) xs)
  unfolding taken
  holding-taken x xs some_room =
      let e : max ≡ suc (max - 1) = omega arith in
      rw e (ap (λ n. holding (x ∷ take n xs)) (omega arith))

  -- A round on a queue that is not empty takes two steps.
  round_then :
      (x : TelemetryState F) (xs : Samples) (g : Gateway db J) (t0 t1 u0 u1 : ℕ) (ts : List (ℕ × ℕ))
      → Stands true (x ∷ xs) popping g
      → length (x ∷ xs) < 2 ^ 64
      → 1 ≤ max
      → ((next : Gateway db J)
          → Stands true (drop max (x ∷ xs)) testing next
          → Reaches IsIdle (go next (writes_all ts)))
      → Reaches IsIdle (go g (writes_all ((t0, t1) ∷ (u0, u1) ∷ ts)))
  round_then x xs g t0 t1 u0 u1 ts a room some_room later =
      let one = popping-step db to_json max zero_f unpack true (x ∷ xs) g t0 t1 a refl room in
      let has : Stands true (drop max (x ∷ xs)) (holding (x ∷ take (max - 1) xs)) one.next =
        record {
          queued = one.there.queued;
          runs = one.there.runs;
          stands = one.there.stands ∙ holding-taken x xs some_room;
        } in
      let two =
        holding-step db to_json max zero_f unpack true (drop max (x ∷ xs)) one.next u0 u1
          (x ∷ take (max - 1) xs) has in
      then-Reaches IsIdle g t0 t1 ((u0, u1) ∷ ts) one
        (then-Reaches IsIdle one.next u0 u1 ts two (later two.next two.there))

  -- Three steps for each queued sample are enough: each round takes one sample at least.
  drain :
      (ts : List (ℕ × ℕ)) (xs : Samples) (g : Gateway db J)
      → Stands true xs testing g
      → length xs < 2 ^ 64
      → 1 ≤ max
      → 3 * length xs ≤ length ts
      → Reaches IsIdle (go g (writes_all ts))
  drain ts [] g a room some_room enough = testing-IsIdle ts g a
  drain [] (x ∷ xs) g a room some_room enough = absurd (omega arith)
  drain (t ∷ []) (x ∷ xs) g a room some_room enough = absurd (omega arith)
  drain (t ∷ u ∷ []) (x ∷ xs) g a room some_room enough = absurd (omega arith)
  drain ((a0, a1) ∷ (b0, b1) ∷ (c0, c1) ∷ ts) (x ∷ xs) g a room some_room enough =
      let one = testing-step db to_json max zero_f unpack true (x ∷ xs) g a0 a1 a in
      let fewer = length-drop max (x ∷ xs) in
      then-Reaches IsIdle g a0 a1 ((b0, b1) ∷ (c0, c1) ∷ ts) one (
        round_then x xs one.next b0 b1 c0 c1 ts one.there room some_room (λ next there.
          drain ts (drop max (x ∷ xs)) next there (omega (arith, fewer)) some_room
            (omega (arith, fewer))))

  pub drain_any :
      (ts : List (ℕ × ℕ)) (xs : Samples) (w : Stand (TelemetryState F)) (g : Gateway db J)
      → Stands true xs w g
      → has_ended w ≡ false
      → length xs < 2 ^ 64
      → 1 ≤ max
      → 3 * length xs + 2 ≤ length ts
      → Reaches IsIdle (go g (writes_all ts))
  drain_any [] xs w g a on room some_room enough = absurd (omega arith)
  drain_any ts xs testing g a on room some_room enough =
      drain ts xs g a room some_room (omega arith)
  drain_any ((t0, t1) ∷ ts) xs (holding b) g a on room some_room enough =
      let one = holding-step db to_json max zero_f unpack true xs g t0 t1 b a in
      then-Reaches IsIdle g t0 t1 ts one
        (drain ts xs one.next one.there room some_room (omega arith))
  drain_any ts [] popping g a on room some_room enough = popping-IsIdle ts g a
  drain_any ((t0, t1) ∷ []) xs popping g a on room some_room enough = absurd (omega arith)
  drain_any ((t0, t1) ∷ (u0, u1) ∷ ts) (x ∷ xs) popping g a on room some_room enough =
      let fewer = length-drop max (x ∷ xs) in
      round_then x xs g t0 t1 u0 u1 ts a room some_room (λ next there.
        drain ts (drop max (x ∷ xs)) next there (omega (arith, fewer)) some_room
          (omega (arith, fewer)))
  drain_any ts xs ended g a on room some_room enough = cc

  ended_stays :
      (ts : List (ℕ × ℕ)) (xs : Samples) (g : Gateway db J)
      → Stands false xs ended g
      → Reaches HasEnded (go g (writes_all ts))
  unfolding run
  ended_stays [] xs g a = record { final = g; returns = refl; there = a.stands }
  ended_stays ((t0, t1) ∷ ts) xs g a =
      let l = ended-step db to_json max zero_f unpack false xs g t0 t1 a in
      then-Reaches HasEnded g t0 t1 ts l (ended_stays ts xs l.next l.there)

  -- Once the gateway is stopped, the test of the loop fails.
  test_ends :
      (t0 t1 : ℕ) (ts : List (ℕ × ℕ)) (xs : Samples) (g : Gateway db J)
      → Stands false xs testing g
      → Reaches HasEnded (go g (writes_all ((t0, t1) ∷ ts)))
  test_ends t0 t1 ts xs g a =
      let l = testing-step db to_json max zero_f unpack false xs g t0 t1 a in
      then-Reaches HasEnded g t0 t1 ts l (ended_stays ts xs l.next l.there)

  batch_ends :
      (t0 t1 u0 u1 : ℕ) (ts : List (ℕ × ℕ)) (xs b : Samples) (g : Gateway db J)
      → Stands false xs (taken b) g
      → Reaches HasEnded (go g (writes_all ((t0, t1) ∷ (u0, u1) ∷ ts)))
  unfolding taken
  batch_ends t0 t1 u0 u1 ts xs [] g a = test_ends t0 t1 ((u0, u1) ∷ ts) xs g a
  batch_ends t0 t1 u0 u1 ts xs (x ∷ b) g a =
      let l = holding-step db to_json max zero_f unpack false xs g t0 t1 (x ∷ b) a in
      then-Reaches HasEnded g t0 t1 ((u0, u1) ∷ ts) l (test_ends u0 u1 ts xs l.next l.there)

  -- Three steps are enough from every place.
  pub stopped_ends :
      (t0 t1 u0 u1 v0 v1 : ℕ) (xs : Samples) (w : Stand (TelemetryState F)) (g : Gateway db J)
      → Stands false xs w g
      → length xs < 2 ^ 64
      → Reaches HasEnded (go g (writes_all ((t0, t1) ∷ (u0, u1) ∷ (v0, v1) ∷ [])))
  stopped_ends t0 t1 u0 u1 v0 v1 xs testing g a room =
      test_ends t0 t1 ((u0, u1) ∷ (v0, v1) ∷ []) xs g a
  stopped_ends t0 t1 u0 u1 v0 v1 xs popping g a room =
      let l = popping-step db to_json max zero_f unpack false xs g t0 t1 a refl room in
      then-Reaches HasEnded g t0 t1 ((u0, u1) ∷ (v0, v1) ∷ []) l
        (batch_ends u0 u1 v0 v1 [] (drop max xs) (take max xs) l.next l.there)
  stopped_ends t0 t1 u0 u1 v0 v1 xs (holding b) g a room =
      let l = holding-step db to_json max zero_f unpack false xs g t0 t1 b a in
      then-Reaches HasEnded g t0 t1 ((u0, u1) ∷ (v0, v1) ∷ []) l
        (test_ends u0 u1 ((v0, v1) ∷ []) xs l.next l.there)
  stopped_ends t0 t1 u0 u1 v0 v1 xs ended g a room =
      ended_stays ((t0, t1) ∷ (u0, u1) ∷ (v0, v1) ∷ []) xs g a
