-- ===== src/App/GatewayMain/Settings.antt =====
-- The options of src/apps/telemetry_gateway_main.c arrive in the gateway and its WebSocket server.
use telemetry_platform_testb.Base.{
  zero, suc, ◌≤◌, ltb, ℕ, ◌≡◌, refl, ap, sym, ◌∙◌, arith, min, Bool, true, false, [], ◌∷◌, some,
  take, take-all, codes, same_string, if◌then◌else◌,
}
use telemetry_platform_testb.Base.Int.{ℤ, pos, negsuc, pos_part, ltb_ℤ}
use telemetry_platform_testb.Types.{CString}
use telemetry_platform_testb.Libc.{strtol, decimal, Environment, getenv}
use telemetry_platform_testb.Libc.Numbers.{
  InInt, strtol-decimal, strtol-bit, length-decimal, decimal-cons,
}
use telemetry_platform_testb.Env.{
  clamp, int_or, env_int, text_or, env_str_local, knobs, initial_server, initial_exp_tag,
}
use telemetry_platform_testb.App.GatewayMain.{
  Options, at_least_0, or_default, normalised, printed_int, or_text, export_settings,
}

-- A number that was printed is read back and clamped.
int_or-printed :
    (z def minv maxv : ℤ)
    → InInt z
    → int_or (some (printed_int z)) def minv maxv ≡ clamp minv maxv z
unfolding int_or
int_or-printed z def minv maxv h =
    let shape = decimal-cons z in
    ap (λ t. int_or (some t) def minv maxv)
      (take-all (decimal z) 31 (omega (arith, length-decimal z)) ∙ shape.2)
    ∙ ap (λ t. clamp minv maxv (strtol t)) (sym shape.2)
    ∙ ap (clamp minv maxv) (strtol-decimal z h)

-- What atoi returns is an int.
pub record AreInts (o : Options) : Type 0 where
  pub batch : InInt o.batch
  pub stats_ms : InInt o.stats_ms
  pub delay : InInt o.ui_delay_ms
  pub jitter : InInt o.ui_jitter_ms
  pub drop : InInt o.ui_drop_pct
  pub start : InInt o.ui_cut_start_s
  pub duration : InInt o.ui_cut_duration_s

clamp-at_least_0 :
    (z : ℤ) (maxv : ℕ) → pos_part (clamp (pos 0) (pos maxv) (at_least_0 z)) ≡ min maxv (pos_part z)
unfolding at_least_0
clamp-at_least_0 (pos n) maxv = ground arith
clamp-at_least_0 (negsuc n) maxv = ground arith

at_least_0-InInt : (z : ℤ) → InInt z → InInt (at_least_0 z)
unfolding at_least_0
at_least_0-InInt z h = ground arith

or_default-InInt : (def z : ℤ) → InInt def → InInt z → InInt (or_default def z)
unfolding or_default
or_default-InInt def z hd h = ground arith

percent-InInt : (z : ℤ) → InInt z → InInt (if ltb_ℤ (pos 100) z then pos 100 else z)
percent-InInt z h = ground arith

-- What the user asks for: a positive number, brought into the range; a text that is not empty.
abbrev pub wanted : ℕ → ℕ → ℕ → ℤ → ℤ
wanted def minv maxv (pos zero) = pos def
wanted def minv maxv (pos (suc n)) = pos (if ltb (suc n) minv then minv else min maxv (suc n))
wanted def minv maxv (negsuc n) = pos def

abbrev pub wanted_text : CString → CString → CString
wanted_text def [] = def
wanted_text def (c ∷ s) = c ∷ s

clamp-wanted :
    (def minv maxv : ℕ) (z : ℤ)
    → minv ≤ def
    → def ≤ maxv
    → clamp (pos minv) (pos maxv) (or_default (pos def) z) ≡ wanted def minv maxv z
unfolding or_default
clamp-wanted def minv maxv (pos zero) low high = ground arith
clamp-wanted def minv maxv (pos (suc n)) low high = ground arith
clamp-wanted def minv maxv (negsuc n) low high = ground arith

text_or-or_text : (def t : CString) → text_or (some (or_text def t)) def ≡ wanted_text def t
unfolding text_or or_text
text_or-or_text [] [] = refl
text_or-or_text (c ∷ s) [] = refl
text_or-or_text def (c ∷ s) = refl

stats_arrive :
    (on : Bool)
    → int_or (some (if on then codes "1" else codes "0")) (pos 0) (pos 0) (pos 1)
      ≡ (if on then pos 1 else pos 0)
unfolding int_or
stats_arrive true = ap (clamp (pos 0) (pos 1)) (strtol-bit true)
stats_arrive false = ap (clamp (pos 0) (pos 1)) (strtol-bit false)

-- The settings that arrive for the options of a command line.
pub record Arrive (o : Options) (env : Environment) : Type 0 where
  pub batch : (knobs env).batch_size ≡ wanted 50 1 4096 o.batch
  pub stats : (knobs env).stats_enabled ≡ (if o.stats then pos 1 else pos 0)
  pub stats_ms : (knobs env).stats_interval_ms ≡ wanted 1000 50 60000 o.stats_ms
  pub delay : (initial_server env).delay_ms ≡ min 60000 (pos_part o.ui_delay_ms)
  pub jitter : (initial_server env).jitter_ms ≡ min 60000 (pos_part o.ui_jitter_ms)
  pub drop : (initial_server env).drop_pct ≡ min 100 (pos_part o.ui_drop_pct)
  pub start : (initial_server env).cut_start_s ≡ min 86400 (pos_part o.ui_cut_start_s)
  pub duration : (initial_server env).cut_duration_s ≡ min 86400 (pos_part o.ui_cut_duration_s)
  pub closes :
      (initial_server env).reconnect_mode_close
      ≡ same_string (take 31 (wanted_text (codes "close") o.ui_reconnect_mode)) (codes "close")
  pub tag : initial_exp_tag env ≡ take 63 (wanted_text (codes "default") o.ui_exp_tag)

drop-percent :
    (z : ℤ)
    → pos_part
        (clamp (pos 0) (pos 100) (if ltb_ℤ (pos 100) (at_least_0 z) then pos 100 else at_least_0 z))
      ≡ min 100 (pos_part z)
unfolding at_least_0
drop-percent (pos n) = ground arith
drop-percent (negsuc n) = ground arith

-- Through the environment, whatever was in it before, every number of the command line arrives in the
-- gateway and the WebSocket server as itself within the documented range: nothing negative, at most a
-- minute, a hundred percent or a day, and the default for a batch or an interval that is not
-- positive. The mode and the tag arrive as they are, cut to their arrays, with the defaults for empty ones.
pub export_settings-Arrive :
    (o : Options) (env : Environment) → AreInts o → Arrive o (export_settings (normalised o) env)
unfolding export_settings normalised getenv same_string initial_server initial_exp_tag env_int knobs
    env_str_local int_or
export_settings-Arrive o env ints =
    let delay =
      int_or-printed (at_least_0 o.ui_delay_ms) (pos 0) (pos 0) (pos 60000)
        (at_least_0-InInt o.ui_delay_ms ints.delay) in
    record {
      batch =
          int_or-printed (or_default (pos 50) o.batch) (pos 50) (pos 1) (pos 4096)
            (or_default-InInt (pos 50) o.batch (omega arith) ints.batch)
          ∙ clamp-wanted 50 1 4096 o.batch (omega arith) (omega arith);
      stats = stats_arrive o.stats;
      stats_ms =
          int_or-printed (or_default (pos 1000) o.stats_ms) (pos 1000) (pos 50) (pos 60000)
            (or_default-InInt (pos 1000) o.stats_ms (omega arith) ints.stats_ms)
          ∙ clamp-wanted 1000 50 60000 o.stats_ms (omega arith) (omega arith);
      delay = ap pos_part delay ∙ clamp-at_least_0 o.ui_delay_ms 60000;
      jitter =
          ap pos_part (
            int_or-printed (at_least_0 o.ui_jitter_ms) (pos 0) (pos 0) (pos 60000)
              (at_least_0-InInt o.ui_jitter_ms ints.jitter))
          ∙ clamp-at_least_0 o.ui_jitter_ms 60000;
      drop =
          ap pos_part (
            int_or-printed
              (if ltb_ℤ (pos 100) (at_least_0 o.ui_drop_pct)
                then pos 100
                else at_least_0 o.ui_drop_pct)
              (pos 0) (pos 0) (pos 100)
              (percent-InInt (at_least_0 o.ui_drop_pct) (at_least_0-InInt o.ui_drop_pct ints.drop)))
          ∙ drop-percent o.ui_drop_pct;
      start =
          ap pos_part (
            int_or-printed (at_least_0 o.ui_cut_start_s) (pos 0) (pos 0) (pos 86400)
              (at_least_0-InInt o.ui_cut_start_s ints.start))
          ∙ clamp-at_least_0 o.ui_cut_start_s 86400;
      duration =
          ap pos_part (
            int_or-printed (at_least_0 o.ui_cut_duration_s) (pos 0) (pos 0) (pos 86400)
              (at_least_0-InInt o.ui_cut_duration_s ints.duration))
          ∙ clamp-at_least_0 o.ui_cut_duration_s 86400;
      closes =
          ap (λ t. same_string (take 31 t) (codes "close"))
            (text_or-or_text (codes "close") o.ui_reconnect_mode);
      tag = ap (take 63) (text_or-or_text (codes "default") o.ui_exp_tag);
    }
