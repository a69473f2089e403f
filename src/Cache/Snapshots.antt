-- ===== src/Cache/Snapshots.antt =====
-- What a snapshot of src/core/telemetry_cache.c shows after any schedule of the sensor threads.
use telemetry_platform_testb.Base.{
  ℕ, ◌+◌, ◌%◌, ◌^◌, ◌<◌, ◌≡◌, refl, ap, List, [], ◌∷◌, arith, if◌then◌else◌,
}
use telemetry_platform_testb.Base.Int.{pos, eqb_ℤ}
use telemetry_platform_testb.Types.{Vec3f}
use telemetry_platform_testb.Cache.{
  MotorReading, TelemetryCache, get, Call, sets_imu, sets_tilt, sets_motor, step, run,
}

module _ {F : Type 0} where
  -- The last IMU, tilt or motor reading of a schedule, with the value from before it if it has none.
  abbrev pub last_imu : Vec3f F × Vec3f F → List (Call F) → Vec3f F × Vec3f F
  last_imu d [] = d
  last_imu d (sets_imu a g ∷ ks) = last_imu (a, g) ks
  last_imu d (sets_tilt t s ∷ ks) = last_imu d ks
  last_imu d (sets_motor i m ∷ ks) = last_imu d ks

  abbrev pub last_tilt : Vec3f F × ℕ → List (Call F) → Vec3f F × ℕ
  last_tilt d [] = d
  last_tilt d (sets_imu a g ∷ ks) = last_tilt d ks
  last_tilt d (sets_tilt t s ∷ ks) = last_tilt (t, s) ks
  last_tilt d (sets_motor i m ∷ ks) = last_tilt d ks

  abbrev pub last_motor : ℕ → MotorReading → List (Call F) → MotorReading
  last_motor k d [] = d
  last_motor k d (sets_imu a g ∷ ks) = last_motor k d ks
  last_motor k d (sets_tilt t s ∷ ks) = last_motor k d ks
  last_motor k d (sets_motor i m ∷ ks) = last_motor k (if eqb_ℤ i (pos k) then m else d) ks

  -- The writes that took effect: every call but those with another motor index than 1 and 2.
  abbrev pub writes : List (Call F) → ℕ
  writes [] = 0
  writes (sets_imu a g ∷ ks) = 1 + writes ks
  writes (sets_tilt t s ∷ ks) = 1 + writes ks
  writes (sets_motor i m ∷ ks) =
      (if eqb_ℤ i (pos 1) then 1 else if eqb_ℤ i (pos 2) then 1 else 0) + writes ks

  -- A snapshot after a schedule shows, for each sensor, the reading of one call, the last one that
  -- took effect, and a sequence number that counts the writes modulo 2^32.
  pub get-run :
      (c : TelemetryCache F) (ks : List (Call F))
      → c.seq < 2 ^ 32
      → get (run c ks) ≡ record {
        acc_g = (last_imu (c.acc_g, c.gyro_dps) ks).0;
        gyro_dps = (last_imu (c.acc_g, c.gyro_dps) ks).1;
        tilt_deg = (last_tilt (c.tilt_deg, c.tilt_status) ks).0;
        tilt_status = (last_tilt (c.tilt_deg, c.tilt_status) ks).1;
        motor0 = last_motor 1 c.motor0 ks;
        motor1 = last_motor 2 c.motor1 ks;
        seq = (c.seq + writes ks) % 2 ^ 32;
      }
  unfolding get run step
  get-run c [] h = ground arith
  get-run c (sets_imu a g ∷ ks) h = ground (arith, get-run (step c (sets_imu a g)) ks)
  get-run c (sets_tilt t s ∷ ks) h = ground (arith, get-run (step c (sets_tilt t s)) ks)
  get-run c (sets_motor i m ∷ ks) h = ground (arith, get-run (step c (sets_motor i m)) ks)

  run-no_writes : (c : TelemetryCache F) (ks : List (Call F)) → writes ks ≡ 0 → run c ks ≡ c
  unfolding run step
  run-no_writes c [] h = refl
  run-no_writes c (sets_imu a g ∷ ks) h = absurd (omega arith)
  run-no_writes c (sets_tilt t s ∷ ks) h = absurd (omega arith)
  run-no_writes c (sets_motor i m ∷ ks) h = ground (arith, run-no_writes c ks)

  seq-get-run :
      (c : TelemetryCache F) (ks : List (Call F))
      → c.seq < 2 ^ 32
      → (get (run c ks)).seq ≡ (c.seq + writes ks) % 2 ^ 32
  seq-get-run c ks h = ap (λ s. s.seq) (get-run c ks h)

  -- Two snapshots with the same sequence number, with fewer than 2^32 writes between them, are equal:
  -- a reader that sees the number stand still has missed nothing.
  pub same_seq-same_snapshot :
      (c : TelemetryCache F) (ks : List (Call F))
      → c.seq < 2 ^ 32
      → writes ks < 2 ^ 32
      → (get (run c ks)).seq ≡ (get c).seq
      → get (run c ks) ≡ get c
  unfolding get
  same_seq-same_snapshot c ks h few same =
      let none_between : writes ks ≡ 0 = omega (arith, seq-get-run c ks h) in
      ap get (run-no_writes c ks none_between)
