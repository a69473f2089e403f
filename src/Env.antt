-- ===== src/Env.antt =====
-- The settings that the gateway and its WebSocket server read from the environment: env_int and the
-- experiment knobs of telemetry_gateway_start in src/core/telemetry_gateway.c, and env_int_local,
-- env_str_local and the fields that ws_server_start sets in src/core/ws_server.c.
pub mod Bounds
mod Examples
use telemetry_platform_testb.Base.{
  ℕ, Bool, true, false, List, [], ◌∷◌, Option, none, some, take, codes, same_string, if◌then◌else◌,
}
use telemetry_platform_testb.Base.Int.{ℤ, pos, pos_part, ltb_ℤ, eqb_ℤ}
use telemetry_platform_testb.Types.{CString}
use telemetry_platform_testb.Libc.{strtol, Environment, getenv}
use telemetry_platform_testb.Ws.Broadcast.{Server}

-- `if(x < minv) x = minv; if(x > maxv) x = maxv;`
abbrev pub clamp : ℤ → ℤ → ℤ → ℤ
clamp minv maxv x =
    let raised = if ltb_ℤ x minv then minv else x in if ltb_ℤ maxv raised then maxv else raised

-- What env_int makes of the value of getenv; env_int_local is the same function.
unfoldable pub int_or : Option CString → ℤ → ℤ → ℤ → ℤ
int_or none def minv maxv = def
int_or (some []) def minv maxv = def
int_or (some (c ∷ s)) def minv maxv = clamp minv maxv (strtol (c ∷ s))

unfoldable pub env_int : CString → ℤ → ℤ → ℤ → Environment → ℤ
unfolding int_or
env_int name def minv maxv env = int_or (getenv name env) def minv maxv

-- The text that env_str_local copies; the fallbacks are not NULL.
unfoldable pub text_or : Option CString → CString → CString
text_or none fallback = fallback
text_or (some []) fallback = fallback
text_or (some (c ∷ s)) fallback = c ∷ s

-- env_str_local into an array of `n + 1` bytes.
unfoldable pub env_str_local : CString → ℕ → CString → Environment → CString
unfolding text_or
env_str_local name n fallback env = take n (text_or (getenv name env) fallback)

-- batch_size, stats_enabled and stats_interval_ms of struct telemetry_gateway.
pub record Knobs : Type 0 where
  pub batch_size : ℤ
  pub stats_enabled : ℤ
  pub stats_interval_ms : ℤ

unfoldable pub knobs : Environment → Knobs
knobs env = record {
  batch_size = env_int (codes "GW_BATCH") (pos 50) (pos 1) (pos 4096) env;
  stats_enabled = env_int (codes "GW_STATS") (pos 0) (pos 0) (pos 1) env;
  stats_interval_ms = env_int (codes "GW_STATS_MS") (pos 1000) (pos 50) (pos 60000) env;
}

-- The fields of struct ws_server as ws_server_start leaves them, those that calloc zeroed included;
-- the least value of each setting is 0.
unfoldable pub initial_server : Environment → Server
initial_server env = record {
  clients = [];
  delay_ms = pos_part (env_int (codes "WS_DELAY_MS") (pos 0) (pos 0) (pos 60000) env);
  jitter_ms = pos_part (env_int (codes "WS_JITTER_MS") (pos 0) (pos 0) (pos 60000) env);
  drop_pct = pos_part (env_int (codes "WS_DROP_PCT") (pos 0) (pos 0) (pos 100) env);
  cut_start_s = pos_part (env_int (codes "WS_CUT_START_S") (pos 0) (pos 0) (pos 86400) env);
  cut_duration_s = pos_part (env_int (codes "WS_CUT_DURATION_S") (pos 0) (pos 0) (pos 86400) env);
  reconnect_mode_close =
      same_string (env_str_local (codes "WS_RECONNECT_MODE") 31 (codes "close") env)
        (codes "close");
  start_mono_ns = 0;
  experiment_anchor_set = false;
  cut_close_fired = false;
  dropped_msgs = 0;
  delayed_msgs = 0;
  cut_msgs = 0;
  closed_fds = [];
}

unfoldable pub initial_exp_tag : Environment → CString
initial_exp_tag env = env_str_local (codes "WS_EXP_TAG") 63 (codes "default") env
