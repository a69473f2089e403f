-- ===== src/Tick.antt =====
-- include/time_utils.h and the tick of src/core/telemetry_state_pub.c: the deadline of a periodic
-- thread advances by one period, and is brought back to less than a second of nanoseconds.
mod Examples
use telemetry_platform_testb.Base.{
  ℕ, zero, suc, ◌+◌, ◌-◌, ◌*◌, ◌/◌, ◌<◌, ◌≡◌, inl, inr, Option, none, some, arith, leb, leb→le,
  Bool-cases, if◌then◌else◌,
}

-- struct timespec.
pub record Timespec : Type 0 where
  pub tv_sec : ℕ
  pub tv_nsec : ℕ

abbrev pub second_ns : ℕ
second_ns = 1000000000

-- `while(next->tv_nsec >= 1000000000L){ … }` with fuel; none means that the fuel ran out.
unfoldable pub carry : ℕ → Timespec → Option Timespec
carry zero next = none
carry (suc fuel) next =
    let rest =
      carry fuel (record { tv_sec = next.tv_sec + 1; tv_nsec = next.tv_nsec - second_ns }) in
    if leb second_ns next.tv_nsec then rest else some next

-- sleep_until_next_tick up to the sleep: the deadline that clock_nanosleep gets. The fuel is one
-- round for each whole second to carry, and one for the last test.
unfoldable pub next_tick : Timespec → ℕ → Option Timespec
unfolding carry
next_tick next period_ns =
    let t = record next { tv_nsec = next.tv_nsec + period_ns } in
    carry (t.tv_nsec / second_ns + 1) t

abbrev pub total_ns : Timespec → ℕ
total_ns t = t.tv_sec * second_ns + t.tv_nsec

-- What the tick promises of the new deadline.
pub record Advances (old : Timespec) (period_ns : ℕ) (result : Option Timespec) : Type 0 where
  pub deadline : Timespec
  pub returns : result ≡ some deadline
  pub total : total_ns deadline ≡ total_ns old + period_ns
  pub normal : deadline.tv_nsec < second_ns

carry-Advances :
    (fuel : ℕ) (t : Timespec) → t.tv_nsec < fuel * second_ns → Advances t 0 (carry fuel t)
unfolding carry
carry-Advances zero t h = absurd (omega arith)
carry-Advances (suc fuel) t h = elim (Bool-cases (leb second_ns t.tv_nsec)) [
  | inl full ↦
      let later : Timespec = record { tv_sec = t.tv_sec + 1; tv_nsec = t.tv_nsec - second_ns } in
      let some_whole = leb→le second_ns t.tv_nsec full in
      let rest = carry-Advances fuel later (omega arith) in
      record {
        deadline = rest.deadline;
        returns = rw full rest.returns;
        total = omega (arith, rest.total);
        normal = rest.normal;
      }
  | inr done ↦ record {
    deadline = t;
    returns = rw done;
    total = omega arith;
    normal = ground arith;
  }
]

-- The loop ends, the deadline advances by exactly one period, whatever the period, and its
-- nanoseconds are below a second again.
pub next_tick-Advances :
    (next : Timespec) (period_ns : ℕ) → Advances next period_ns (next_tick next period_ns)
unfolding next_tick
next_tick-Advances next period_ns =
    let t = record next { tv_nsec = next.tv_nsec + period_ns } in
    let loop = carry-Advances (t.tv_nsec / second_ns + 1) t (omega arith) in
    record {
      deadline = loop.deadline;
      returns = loop.returns;
      total = omega (arith, loop.total);
      normal = loop.normal;
    }
