-- ===== src/Starting/Identity.antt =====
-- The names under which the threads of src/sensors/*.c and src/core/telemetry_state_pub.c connect to the
-- broker, which drops the older one of two connections with the same name.
use telemetry_platform_testb.Base.{
  ℕ, ◌+◌, ◌≤◌, ◌≡◌, refl, ap, ap₂, sym, ◌∙◌, [], ◌++◌, arith, ◌==◌, take, drop, take-all, get_or,
  length, length-append, drop-append_length, codes, if◌then◌else◌,
}
use telemetry_platform_testb.Base.Int.{ℤ}
use telemetry_platform_testb.Types.{CString}
use telemetry_platform_testb.Libc.{decimal, digits, strtol}
use telemetry_platform_testb.Libc.Numbers.{
  InInt, Stops, Stops-dash, strtol-decimal, strtol-decimal-append, length-decimal, length-digits,
}
use telemetry_platform_testb.App.RobotMain.{Thread, th_imu, th_tilt, th_motor1, th_motor2, th_state}
use telemetry_platform_testb.Starting.{Call, client_id, decimal_time}

-- The thread that a name tells.
abbrev thread_of : CString → Thread
thread_of name =
    if get_or name 5 0 == b'i'
    then th_imu
    else if get_or name 5 0 == b't'
    then th_tilt
    else if get_or name 5 0 == b'e'
    then th_state
    else if get_or name 10 0 == b'1'
    then th_motor1
    else th_motor2

thread_of-client_id : (t : Thread) (c : Call) → thread_of (client_id t c) ≡ t
unfolding client_id
thread_of-client_id th_imu c = refl
thread_of-client_id th_tilt c = refl
thread_of-client_id th_motor1 c = refl
thread_of-client_id th_motor2 c = refl
thread_of-client_id th_state c = refl

-- A name of at most 63 bytes is not cut, and tells the number of the process behind its prefix.
uncut-pid :
    (prefix text : CString) (z : ℤ)
    → length prefix + (11 + length text) ≤ 63
    → InInt z
    → Stops text
    → strtol (drop (length prefix) (take 63 (prefix ++ (decimal z ++ text)))) ≡ z
uncut-pid prefix text z short small stop =
    ap (λ t. strtol (drop (length prefix) t))
      (take-all (prefix ++ (decimal z ++ text)) 63 (
        omega (
          arith,
          length-append prefix (decimal z ++ text),
          length-append (decimal z) text,
          length-decimal z,
        )))
    ∙ ap strtol (drop-append_length prefix (decimal z ++ text))
    ∙ strtol-decimal-append z text small stop

-- Where the number stands in a name.
abbrev behind : Thread → ℕ
behind th_imu = 9
behind th_tilt = 10
behind th_motor1 = 12
behind th_motor2 = 12
behind th_state = 16

pid-client_id :
    (t : Thread) (c : Call) → InInt c.pid → strtol (drop (behind t) (client_id t c)) ≡ c.pid
unfolding client_id decimal_time
pid-client_id t c small = by_thread t
  where
    tail : CString
    tail = codes "-" ++ digits 18 c.time []

    by_thread : (t : Thread) → strtol (drop (behind t) (client_id t c)) ≡ c.pid
    by_thread th_imu =
        uncut-pid (codes "fake-imu-") tail c.pid (omega (arith, length-digits 18 c.time [])) small
          (Stops-dash (digits 18 c.time []))
    by_thread th_tilt =
        uncut-pid (codes "fake-tilt-") tail c.pid (omega (arith, length-digits 18 c.time [])) small
          (Stops-dash (digits 18 c.time []))
    by_thread th_motor1 =
        uncut-pid (codes "fake-motor1-") tail c.pid (omega (arith, length-digits 18 c.time []))
          small (Stops-dash (digits 18 c.time []))
    by_thread th_motor2 =
        uncut-pid (codes "fake-motor2-") tail c.pid (omega (arith, length-digits 18 c.time []))
          small (Stops-dash (digits 18 c.time []))
    by_thread th_state =
        ap strtol (take-all (decimal c.pid) 47 (omega (arith, length-decimal c.pid)))
        ∙ strtol-decimal c.pid small

-- A name tells the thread and the process: threads that connect under the same name are the same thread
-- of the same process, whatever getpid and time answer to each, and although a name is cut to 63 bytes.
pub client_id-tells :
    (t u : Thread) (c d : Call)
    → InInt c.pid
    → InInt d.pid
    → client_id t c ≡ client_id u d
    → (t ≡ u) × (c.pid ≡ d.pid)
client_id-tells t u c d small small' same =
    let thread = sym (thread_of-client_id t c) ∙ ap thread_of same ∙ thread_of-client_id u d in
    (
      thread,
      sym (pid-client_id t c small)
          ∙ ap₂ (λ k name. strtol (drop k name)) (ap behind thread) same
          ∙ pid-client_id u d small',
    )
