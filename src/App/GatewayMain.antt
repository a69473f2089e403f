-- ===== src/App/GatewayMain.antt =====
-- main of src/apps/telemetry_gateway_main.c: the options, and how they reach the gateway through the
-- environment. What atoi makes of a text is a parameter.
pub mod Settings
pub mod CommandLine
pub mod Program
mod Examples
use telemetry_platform_testb.Base.{
  ℕ, Bool, true, false, ◌||◌, List, [], ◌∷◌, Option, none, some, take, codes, same_string,
  if◌then◌else◌,
}
use telemetry_platform_testb.Base.Int.{ℤ, pos, ltb_ℤ}
use telemetry_platform_testb.Types.{CString}
use telemetry_platform_testb.Libc.{decimal, Environment, setenv}

-- The variables of main.
pub record Options : Type 0 where
  pub mqtt_host : CString
  pub mqtt_port : ℤ
  pub db_path : CString
  pub ws_port : ℤ
  pub batch : ℤ
  pub stats : Bool
  pub stats_ms : ℤ
  pub ui_delay_ms : ℤ
  pub ui_jitter_ms : ℤ
  pub ui_drop_pct : ℤ
  pub ui_cut_start_s : ℤ
  pub ui_cut_duration_s : ℤ
  pub ui_reconnect_mode : CString
  pub ui_exp_tag : CString

unfoldable pub default_options : Options
default_options = record {
  mqtt_host = codes "127.0.0.1";
  mqtt_port = pos 1883;
  db_path = codes "telemetry.db";
  ws_port = pos 8080;
  batch = pos 50;
  stats = false;
  stats_ms = pos 1000;
  ui_delay_ms = pos 0;
  ui_jitter_ms = pos 0;
  ui_drop_pct = pos 0;
  ui_cut_start_s = pos 0;
  ui_cut_duration_s = pos 0;
  ui_reconnect_mode = codes "close";
  ui_exp_tag = codes "default";
}

-- What the loop over argv comes to: the options, or the value that main returns at once.
pub data Parsed : Type 0 where
  run : Options → Parsed
  exit : ℕ → Parsed

pub data Flag : Type 0 where
  stats_flag help_flag unknown : Flag

unfoldable pub flag : CString → Flag
unfolding same_string
flag arg =
    if same_string arg (codes "--stats")
    then stats_flag
    else if same_string arg (codes "--help")
    then help_flag
    else unknown

module _ (atoi : CString → ℤ) where
  -- What an option does with the argument behind it; none for a text that is no such option.
  unfoldable pub takes_value : CString → Option (CString → Options → Options)
  unfolding same_string
  takes_value arg =
      if same_string arg (codes "--mqtt-host")
      then some (λ v o. record o { mqtt_host = v })
      else if same_string arg (codes "--mqtt-port")
      then some (λ v o. record o { mqtt_port = atoi v })
      else if same_string arg (codes "--db")
      then some (λ v o. record o { db_path = v })
      else if same_string arg (codes "--ws-port")
      then some (λ v o. record o { ws_port = atoi v })
      else if same_string arg (codes "--batch")
      then some (λ v o. record o { batch = atoi v })
      else if same_string arg (codes "--stats-ms")
      then some (λ v o. record o { stats_ms = atoi v })
      else if same_string arg (codes "--ui-delay-ms")
      then some (λ v o. record o { ui_delay_ms = atoi v })
      else if same_string arg (codes "--ui-jitter-ms")
      then some (λ v o. record o { ui_jitter_ms = atoi v })
      else if same_string arg (codes "--ui-drop-pct")
      then some (λ v o. record o { ui_drop_pct = atoi v })
      else if same_string arg (codes "--ui-cut-start-s")
      then some (λ v o. record o { ui_cut_start_s = atoi v })
      else if same_string arg (codes "--ui-cut-duration-s")
      then some (λ v o. record o { ui_cut_duration_s = atoi v })
      else if same_string arg (codes "--ui-reconnect-mode")
      then some (λ v o. record o { ui_reconnect_mode = v })
      else if same_string arg (codes "--ui-exp-tag")
      then some (λ v o. record o { ui_exp_tag = v })
      else none

  -- The loop on argv[i], argv[i + 1], …; an option that lacks its argument is unknown.
  unfoldable pub parse : List CString → Options → Parsed
  unfolding takes_value flag
  parse [] o = run o
  parse (arg ∷ []) o = elim (flag arg) [
    | stats_flag ↦ run (record o { stats = true })
    | help_flag ↦ exit 0
    | unknown ↦ exit 1
  ]
  parse (arg ∷ v ∷ rest) o = elim (takes_value arg) [
    | some put ↦ parse rest (put v o)
    | none ↦ elim (flag arg) [
      | stats_flag ↦ parse (v ∷ rest) (record o { stats = true })
      | help_flag ↦ exit 0
      | unknown ↦ exit 1
    ]
  ]

-- The checks behind the loop.
pub at_least_0 : ℤ → ℤ
at_least_0 z = if ltb_ℤ z (pos 0) then pos 0 else z

pub or_default : ℤ → ℤ → ℤ
or_default def z = if ltb_ℤ (pos 0) z then z else def

pub normalised : Options → Options
unfolding at_least_0 or_default
normalised o =
    let drop = at_least_0 o.ui_drop_pct in
    record o {
      batch = or_default (pos 50) o.batch;
      stats_ms = or_default (pos 1000) o.stats_ms;
      ui_delay_ms = at_least_0 o.ui_delay_ms;
      ui_jitter_ms = at_least_0 o.ui_jitter_ms;
      ui_drop_pct = if ltb_ℤ (pos 100) drop then pos 100 else drop;
      ui_cut_start_s = at_least_0 o.ui_cut_start_s;
      ui_cut_duration_s = at_least_0 o.ui_cut_duration_s;
    }

-- snprintf(buf, sizeof(buf), "%d", n) into 32 bytes.
abbrev pub printed_int : ℤ → CString
printed_int z = take 31 (decimal z)

pub or_text : CString → CString → CString
or_text def [] = def
or_text def (c ∷ s) = c ∷ s

-- The calls of setenv, in their order.
pub export_settings : Options → Environment → Environment
unfolding or_text
export_settings o env0 =
    let env1 = setenv (codes "GW_BATCH") (printed_int o.batch) env0 in
    let env2 = setenv (codes "GW_STATS_MS") (printed_int o.stats_ms) env1 in
    let env3 = setenv (codes "GW_STATS") (if o.stats then codes "1" else codes "0") env2 in
    let env4 = setenv (codes "WS_DELAY_MS") (printed_int o.ui_delay_ms) env3 in
    let env5 = setenv (codes "WS_JITTER_MS") (printed_int o.ui_jitter_ms) env4 in
    let env6 = setenv (codes "WS_DROP_PCT") (printed_int o.ui_drop_pct) env5 in
    let env7 = setenv (codes "WS_CUT_START_S") (printed_int o.ui_cut_start_s) env6 in
    let env8 = setenv (codes "WS_CUT_DURATION_S") (printed_int o.ui_cut_duration_s) env7 in
    let env9 =
      setenv (codes "WS_RECONNECT_MODE") (or_text (codes "close") o.ui_reconnect_mode) env8 in
    setenv (codes "WS_EXP_TAG") (or_text (codes "default") o.ui_exp_tag) env9

-- The arguments that name every option but --stats; `show` writes a number.
abbrev pub value_arguments : (ℤ → CString) → Options → List CString
value_arguments show o =
    codes "--mqtt-host"
    ∷ o.mqtt_host
    ∷ codes "--mqtt-port"
    ∷ show o.mqtt_port
    ∷ codes "--db"
    ∷ o.db_path
    ∷ codes "--ws-port"
    ∷ show o.ws_port
    ∷ codes "--batch"
    ∷ show o.batch
    ∷ codes "--stats-ms"
    ∷ show o.stats_ms
    ∷ codes "--ui-delay-ms"
    ∷ show o.ui_delay_ms
    ∷ codes "--ui-jitter-ms"
    ∷ show o.ui_jitter_ms
    ∷ codes "--ui-drop-pct"
    ∷ show o.ui_drop_pct
    ∷ codes "--ui-cut-start-s"
    ∷ show o.ui_cut_start_s
    ∷ codes "--ui-cut-duration-s"
    ∷ show o.ui_cut_duration_s
    ∷ codes "--ui-reconnect-mode"
    ∷ o.ui_reconnect_mode
    ∷ codes "--ui-exp-tag"
    ∷ o.ui_exp_tag
    ∷ []

abbrev pub command_line : (ℤ → CString) → Options → List CString
command_line show o =
    if o.stats then codes "--stats" ∷ value_arguments show o else value_arguments show o
