-- ===== src/App/StateDump.antt =====
-- src/apps/state_dump.c: what on_msg prints of a message, and the calls of main. What %.3f makes of a float
-- is an argument; so is atoi.
pub mod Readable
mod Examples
use telemetry_platform_testb.Base.{
  ℕ, Bool, true, false, List, [], ◌∷◌, ◌++◌, Option, none, some, codes,
}
use telemetry_platform_testb.Base.Int.{ℤ, pos}
use telemetry_platform_testb.Types.{CString, Vec3f, Header, MotorState, TelemetryMsg}
use telemetry_platform_testb.Libc.{digits, decimal}

-- %u of a uint32_t and %llu of a uint64_t.
abbrev pub unsigned : ℕ → CString
unsigned n = digits 9 n []

abbrev pub unsigned64 : ℕ → CString
unsigned64 n = digits 19 n []

pub or_null : Option CString → CString
or_null none = codes "(null)"
or_null (some s) = s

-- seq, ts and robot_id.
pub header_of : Option Header → ℕ × ℕ × CString
unfolding or_null
header_of none = (0, 0, codes "(null)")
header_of (some h) = (h.seq, h.timestamp_ns, or_null h.robot_id)

pub header_line : ℕ × ℕ × CString → CString
header_line (seq, ts, robot_id) =
    codes "seq="
    ++ (unsigned seq
        ++ (codes "  t=" ++ (unsigned64 ts ++ (codes "  robot_id=" ++ (robot_id ++ codes "\n")))))

-- The lines of a motor that is there; `label` is its front.
pub motor_lines : CString → Option MotorState → List CString
unfolding or_null
motor_lines label none = []
motor_lines label (some m) =
    (label
      ++ (codes " id="
          ++ (or_null m.motor_id
              ++ (codes "  tics="
                  ++ (unsigned m.tics
                      ++ (codes "  rpm="
                          ++ (decimal m.rpm
                              ++ (codes "  temp="
                                  ++ (decimal m.temperature_c
                                      ++ (codes "C  vps="
                                          ++ (decimal m.voltage_power_stage_mv
                                              ++ (codes "mV  cps="
                                                  ++ (decimal m.current_power_stage_ma
                                                      ++ codes "mA\n")))))))))))))
    ∷ []

pub id_line : CString → Option CString → CString
unfolding or_null
id_line label id = label ++ (or_null id ++ codes "\n")

pub tilt_id_line : Option CString → ℕ → CString
unfolding or_null
tilt_id_line id status =
    codes " tilt_id=" ++ (or_null id ++ (codes "  status=" ++ (unsigned status ++ codes "\n")))

module _ {F : Type 0} (fixed3 : F → CString) where
  pub vec_lines : CString → CString → Option (Vec3f F) → List CString
  vec_lines label unit none = []
  vec_lines label unit (some v) =
      (label
        ++ (fixed3 v.x ++ (codes "  " ++ (fixed3 v.y ++ (codes "  " ++ (fixed3 v.z ++ unit))))))
      ∷ []

  -- The calls of printf for an unpacked message.
  pub dump : TelemetryMsg F → List CString
  unfolding header_of header_line vec_lines id_line tilt_id_line motor_lines
  dump st =
      header_line (header_of st.header)
      ∷ (vec_lines (codes " acc_g:  ") (codes "\n") st.acc_g
          ++ (vec_lines (codes " gyro:   ") (codes " dps\n") st.gyro_dps
              ++ (id_line (codes " imu_id=") st.imu_id
                  ∷ (vec_lines (codes " tilt:   ") (codes " deg\n") st.tilt_deg
                      ++ (tilt_id_line st.tilt_id st.tilt_status
                          ∷ (motor_lines (codes " motor1") st.motor1
                              ++ (motor_lines (codes " motor2") st.motor2
                                  ++ (codes "\n" ∷ []))))))))

  -- A message without a payload, or one that does not unpack, prints nothing on the standard output.
  pub on_msg : (List ℕ → Option (TelemetryMsg F)) → List ℕ → List CString
  unfolding dump
  on_msg unpack [] = []
  on_msg unpack (b ∷ bs) = elim (unpack (b ∷ bs)) [ none ↦ [] | some st ↦ dump st ]

-- The host and the port.
pub arguments : (CString → ℤ) → List CString → CString × ℤ
arguments atoi [] = (codes "127.0.0.1", pos 1883)
arguments atoi (host ∷ []) = (host, pos 1883)
arguments atoi (host ∷ port ∷ rest) = (host, atoi port)
