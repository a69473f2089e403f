-- ===== src/App/StateDump/Readable.antt =====
-- What can be read off the output of src/apps/state_dump.c.
use telemetry_platform_testb.Base.{
  ◌∙◌, sym, append-nil, ap, ℕ, ◌^◌, ◌<◌, ◌≡◌, ◌⊎◌, inl, inr, refl, List, [], ◌∷◌, ◌++◌, Option,
  none, some, arith, codes,
}
use telemetry_platform_testb.Base.Int.{pos}
use telemetry_platform_testb.Types.{CString, Vec3f, Header, MotorState, TelemetryMsg}
use telemetry_platform_testb.Libc.{strtol, digits, decimal}
use telemetry_platform_testb.Libc.Numbers.{Stops-space, strtol-unsigned}
use telemetry_platform_testb.App.StateDump.{
  header_of, header_line, vec_lines, motor_lines, dump, on_msg, or_null, id_line, tilt_id_line,
}

-- The sequence number that is to be seen.
abbrev pub seq_of : Option Header → ℕ
seq_of none = 0
seq_of (some h) = h.seq

-- The first line of the output is read back as the sequence number.
header_line-seq_of :
    (h : Option Header)
    → seq_of h < 2 ^ 32
    → (body : CString) × (header_line (header_of h) ≡ codes "seq=" ++ body)
      × (strtol body ≡ pos (seq_of h))
unfolding header_line header_of
header_line-seq_of none small = (_, refl, strtol-unsigned 0 _ (omega arith) (Stops-space _))
header_line-seq_of (some h) small = (_, refl, strtol-unsigned h.seq _ (omega arith) (Stops-space _))

abbrev pub joined : List CString → CString
joined [] = []
joined (t ∷ ts) = t ++ joined ts

-- The lines of a part: none where it is not there.
abbrev pub part : {A : Type 0} → (A → List CString) → Option A → List CString
part pieces none = []
part pieces (some a) = joined (pieces a) ∷ []

abbrev pub name_or_null : Option CString → CString
name_or_null none = codes "(null)"
name_or_null (some t) = t

module _ {F : Type 0} (fixed3 : F → CString) where
  abbrev pub vector : CString → CString → Vec3f F → List CString
  vector front unit v =
      front ∷ fixed3 v.x ∷ codes "  " ∷ fixed3 v.y ∷ codes "  " ∷ fixed3 v.z ∷ unit ∷ []

  abbrev pub motor : CString → MotorState → List CString
  motor front m =
      front
      ∷ codes " id="
      ∷ name_or_null m.motor_id
      ∷ codes "  tics="
      ∷ digits 9 m.tics []
      ∷ codes "  rpm="
      ∷ decimal m.rpm
      ∷ codes "  temp="
      ∷ decimal m.temperature_c
      ∷ codes "C  vps="
      ∷ decimal m.voltage_power_stage_mv
      ∷ codes "mV  cps="
      ∷ decimal m.current_power_stage_ma
      ∷ codes "mA\n"
      ∷ []

  -- What is to be shown of a message behind its first line, part by part.
  abbrev pub shown : TelemetryMsg F → List CString
  shown st =
      part (vector (codes " acc_g:  ") (codes "\n")) st.acc_g
      ++ (part (vector (codes " gyro:   ") (codes " dps\n")) st.gyro_dps
          ++ (joined (codes " imu_id=" ∷ name_or_null st.imu_id ∷ codes "\n" ∷ [])
              ∷ (part (vector (codes " tilt:   ") (codes " deg\n")) st.tilt_deg
                  ++ (joined (
                        codes " tilt_id="
                        ∷ name_or_null st.tilt_id
                        ∷ codes "  status="
                        ∷ digits 9 st.tilt_status []
                        ∷ codes "\n"
                        ∷ [])
                      ∷ (part (motor (codes " motor1")) st.motor1
                          ++ (part (motor (codes " motor2")) st.motor2 ++ (codes "\n" ∷ [])))))))

  or_null-name : (t : Option CString) → or_null t ≡ name_or_null t
  unfolding or_null
  or_null-name none = refl
  or_null-name (some t) = refl

  vec_lines-part :
      (front unit : CString) (v : Option (Vec3f F))
      → vec_lines fixed3 front unit v ≡ part (vector front unit) v
  unfolding vec_lines
  vec_lines-part front unit none = refl
  vec_lines-part front unit (some v) =
      ap
        (λ u.
          (front
            ++ (fixed3 v.x ++ (codes "  " ++ (fixed3 v.y ++ (codes "  " ++ (fixed3 v.z ++ u))))))
          ∷ [])
        (sym (append-nil unit))

  motor_lines-part :
      (front : CString) (m : Option MotorState) → motor_lines front m ≡ part (motor front) m
  unfolding motor_lines
  motor_lines-part front none = refl
  motor_lines-part front (some m) = rw (or_null-name m.motor_id) refl

  dump-shown : (st : TelemetryMsg F) → dump fixed3 st ≡ header_line (header_of st.header) ∷ shown st
  unfolding dump id_line tilt_id_line
  dump-shown st =
      rw
        (
          vec_lines-part (codes " acc_g:  ") (codes "\n") st.acc_g,
          vec_lines-part (codes " gyro:   ") (codes " dps\n") st.gyro_dps,
          vec_lines-part (codes " tilt:   ") (codes " deg\n") st.tilt_deg,
          motor_lines-part (codes " motor1") st.motor1,
          motor_lines-part (codes " motor2") st.motor2,
          or_null-name st.imu_id,
          or_null-name st.tilt_id,
        )
        refl

  abbrev pub Shown : TelemetryMsg F → List CString → Type 0
  Shown st out =
      (body : CString) × (out ≡ (codes "seq=" ++ body) ∷ shown st)
      × (strtol body ≡ pos (seq_of st.header))

  -- Of a payload that is empty or does not unpack nothing is printed. Of any other, as long as its sequence
  -- number is one of 32 bits: the first line has behind "seq=" a number that is read back as the
  -- sequence number, or as 0 without a header, and behind it are exactly the lines of `shown`: for each
  -- vector and motor that the message has, and for no other, one with its label and its values, and in any
  -- case those of the names of the sensors and of the status.
  pub on_msg-shows :
      (unpack : List ℕ → Option (TelemetryMsg F)) (payload : List ℕ)
      → ((st : TelemetryMsg F) → unpack payload ≡ some st → seq_of st.header < 2 ^ 32)
      → ((on_msg fixed3 unpack payload ≡ []) × ((payload ≡ []) ⊎ (unpack payload ≡ none)))
        ⊎ ((st : TelemetryMsg F) × (unpack payload ≡ some st)
            × Shown st (on_msg fixed3 unpack payload))
  unfolding on_msg
  on_msg-shows unpack [] small = inl (refl, inl refl)
  on_msg-shows unpack (b ∷ bs) small = by_message (unpack (b ∷ bs)) small
    where
      by_message :
          (found : Option (TelemetryMsg F))
          → ((st : TelemetryMsg F) → found ≡ some st → seq_of st.header < 2 ^ 32)
          → ((elim found [ none ↦ [] | some st ↦ dump fixed3 st ] ≡ [])
              × ((b ∷ bs ≡ []) ⊎ (found ≡ none)))
            ⊎ ((st : TelemetryMsg F) × (found ≡ some st)
                × Shown st (elim found [ none ↦ [] | some st ↦ dump fixed3 st ]))
      by_message none small = inl (refl, inr refl)
      by_message (some st) small =
          let d = header_line-seq_of st.header (small st refl) in
          inr (st, refl, (d.0, dump-shown st ∙ ap (λ line. line ∷ shown st) d.1, d.2))
