-- ===== src/App/GatewayMain/CommandLine.antt =====
-- Any options can be given on the command line of src/apps/telemetry_gateway_main.c.
use telemetry_platform_testb.Base.{
  ◌≡◌, refl, ap, sym, ◌∙◌, Bool, true, false, List, ◌∷◌, inl, inr, Bool-cases, codes, same_string,
  if◌then◌else◌,
}
use telemetry_platform_testb.Base.Int.{ℤ}
use telemetry_platform_testb.Types.{CString}
use telemetry_platform_testb.Libc.Numbers.{InInt}
use telemetry_platform_testb.App.GatewayMain.{
  Options, default_options, takes_value, flag, run, parse, value_arguments, command_line,
}
use telemetry_platform_testb.App.GatewayMain.Settings.{AreInts}

default_options-stats : default_options ≡ record default_options { stats = false }
unfolding default_options
default_options-stats = refl

module _ (atoi : CString → ℤ) (show : ℤ → CString) (o : Options) where
  parse-value_arguments :
      (b : Bool)
      → ((z : ℤ) → InInt z → atoi (show z) ≡ z)
      → AreInts o
      → InInt o.mqtt_port
      → InInt o.ws_port
      → parse atoi (value_arguments show o) (record default_options { stats = b })
        ≡ run (record o { stats = b })
  unfolding parse takes_value default_options same_string
  parse-value_arguments b reads ints port ws =
      rw
        (
          reads o.mqtt_port port,
          reads o.ws_port ws,
          reads o.batch ints.batch,
          reads o.stats_ms ints.stats_ms,
          reads o.ui_delay_ms ints.delay,
          reads o.ui_jitter_ms ints.jitter,
          reads o.ui_drop_pct ints.drop,
          reads o.ui_cut_start_s ints.start,
          reads o.ui_cut_duration_s ints.duration,
        )
        refl

  parse-stats :
      (rest : List CString)
      → (v : CString)
      → parse atoi (codes "--stats" ∷ v ∷ rest) default_options
        ≡ parse atoi (v ∷ rest) (record default_options { stats = true })
  unfolding parse takes_value flag same_string
  parse-stats rest v = refl

  -- Where atoi reads back what `show` writes of an int, the loop over the arguments that name all
  -- options gives those options, whatever texts they hold, also such as look like options themselves.
  pub parse-command_line :
      ((z : ℤ) → InInt z → atoi (show z) ≡ z)
      → AreInts o
      → InInt o.mqtt_port
      → InInt o.ws_port
      → parse atoi (command_line show o) default_options ≡ run o
  parse-command_line reads ints port ws =
      let given = value_arguments show o in
      let at = λ (b : Bool). parse-value_arguments b reads ints port ws in
      let back : (b : Bool) → o.stats ≡ b → run (record o { stats = b }) ≡ run o =
        λ b e. ap (λ b. run (record o { stats = b })) (sym e) in
      let chosen : (b : Bool)
          → o.stats ≡ b
          → command_line show o ≡ (if b then codes "--stats" ∷ given else given) =
        λ b e. ap (λ b. if b then codes "--stats" ∷ given else given) e in
      elim (Bool-cases o.stats) [
        | inl on ↦
            ap (λ args. parse atoi args default_options) (chosen true on)
            ∙ parse-stats _ (codes "--mqtt-host")
            ∙ at true
            ∙ back true on
        | inr off ↦
            ap (λ args. parse atoi args default_options) (chosen false off)
            ∙ ap (parse atoi given) default_options-stats
            ∙ at false
            ∙ back false off
      ]
