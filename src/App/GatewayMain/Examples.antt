-- ===== src/App/GatewayMain/Examples.antt =====
-- A command line of src/apps/telemetry_gateway_main.c, with atoi as strtol and `show` as %d.
use telemetry_platform_testb.Base.{
  ℕ, ◌≡◌, refl, arith, true, false, some, [], ◌∷◌, codes, same_string,
}
use telemetry_platform_testb.Base.Int.{pos, negsuc}
use telemetry_platform_testb.Libc.{strtol, decimal}
use telemetry_platform_testb.Libc.Numbers.{strtol-decimal}
use telemetry_platform_testb.App.GatewayMain.{
  Options, default_options, flag, run, exit, parse, normalised, export_settings, command_line,
}
use telemetry_platform_testb.App.GatewayMain.Program.{Returns, main, main-Returns}
use telemetry_platform_testb.Gateway.Lifecycle.{created}
use telemetry_platform_testb.Gateway.Lifecycle.Examples.{nothing, answers}
use telemetry_platform_testb.App.GatewayMain.Settings.{AreInts, Arrive, export_settings-Arrive}
use telemetry_platform_testb.App.GatewayMain.CommandLine.{parse-command_line}

abbrev chosen : Options
chosen = record {
  mqtt_host = codes "--stats";
  mqtt_port = pos 1884;
  db_path = codes "run.db";
  ws_port = pos 8081;
  batch = pos 9000;
  stats = true;
  stats_ms = negsuc 4;
  ui_delay_ms = pos 250;
  ui_jitter_ms = pos 40;
  ui_drop_pct = pos 140;
  ui_cut_start_s = pos 20;
  ui_cut_duration_s = pos 5;
  ui_reconnect_mode = [];
  ui_exp_tag = codes "run_7";
}

chosen-AreInts : AreInts chosen
chosen-AreInts = record {
  batch = omega arith;
  stats_ms = omega arith;
  delay = omega arith;
  jitter = omega arith;
  drop = omega arith;
  start = omega arith;
  duration = omega arith;
}

lacks_value : parse strtol (codes "--db" ∷ []) default_options ≡ exit 1
unfolding parse flag same_string
lacks_value = refl

export_settings-Arrive_example : Arrive chosen (export_settings (normalised chosen) [])
export_settings-Arrive_example = export_settings-Arrive chosen [] chosen-AreInts

parse-command_line_example : parse strtol (command_line decimal chosen) default_options ≡ run chosen
parse-command_line_example =
    parse-command_line strtol decimal chosen strtol-decimal chosen-AreInts (omega arith)
      (omega arith)

-- A gateway with statistics that is stopped with two samples in its queue.
main-Returns_example :
    (n : ℕ) × (main strtol
        (answers created created)
        (true ∷ false ∷ [])
        (codes "--db" ∷ codes "run.db" ∷ codes "--stats" ∷ [])
        []
        nothing
      ≡ some (n, nothing))
    × Returns []
        (answers created created)
        nothing
        (parse strtol (codes "--db" ∷ codes "run.db" ∷ codes "--stats" ∷ []) default_options)
        n
main-Returns_example =
    main-Returns strtol (answers created created) (true ∷ false ∷ [])
      (codes "--db" ∷ codes "run.db" ∷ codes "--stats" ∷ []) [] nothing refl refl (omega arith)

help_returns :
    main strtol (answers created created) [] (codes "--help" ∷ []) [] nothing ≡ some (0, nothing)
unfolding main parse flag same_string
help_returns = refl
