-- ===== src/App/GatewayMain/Program.antt =====
-- main of src/apps/telemetry_gateway_main.c from argv to what it returns: the options, the environment,
-- telemetry_gateway_start and telemetry_gateway_stop.
use telemetry_platform_testb.Base.{
  suc, ◌<◌, ℕ, ◌≤◌, ◌≡◌, ◌⊎◌, inl, inr, refl, Bool, true, not, List, [], ◌∷◌, Option, none, some,
  ◌>>=◌, arith,
}
use telemetry_platform_testb.Base.Int.{ℤ, pos, eqb_ℤ}
use telemetry_platform_testb.Types.{CString}
use telemetry_platform_testb.Libc.{Environment}
use telemetry_platform_testb.Env.{knobs}
use telemetry_platform_testb.Gateway.Lifecycle.{
  Handles, created, Held, Answers, Started, failed, running, telemetry_gateway_start,
  telemetry_gateway_stop,
}
use telemetry_platform_testb.Gateway.Lifecycle.Owning.{credit_queue}
use telemetry_platform_testb.Gateway.Lifecycle.Release.{start-stop}
use telemetry_platform_testb.App.GatewayMain.{
  Options, Parsed, run, exit, Flag, stats_flag, help_flag, unknown, flag, takes_value,
  default_options, parse, normalised, export_settings,
}

-- Behind the start, and once a signal has ended the loop: `queue` tells of each sample that the
-- callback leaves in the queue whether it has a raw copy. The value that main returns, and what is held.
pub after_start : List Bool → Started → Held → Option (ℕ × Held)
after_start queue (failed code) l = some (2, l)
after_start queue (running h) l =
    telemetry_gateway_stop h queue (record l { blocks = credit_queue queue l.blocks }) >>= λ left.
    some (0, left)

-- From the environment that main has set.
pub run_gateway : Answers → List Bool → Environment → Held → Option (ℕ × Held)
unfolding after_start
run_gateway a queue env l =
    let stats = not (eqb_ℤ (knobs env).stats_enabled (pos 0)) in
    telemetry_gateway_start (record a { stats_enabled = stats }) l >>= λ r.
    after_start queue r.0 r.1

unfoldable pub after_options : Answers → List Bool → Environment → Held → Parsed → Option (ℕ × Held)
unfolding run_gateway
after_options a queue env l (exit code) = some (code, l)
after_options a queue env l (run o) = run_gateway a queue (export_settings (normalised o) env) l

module _ (atoi : CString → ℤ) where
  unfoldable pub main : Answers → List Bool → List CString → Environment → Held → Option (ℕ × Held)
  unfolding after_options
  main a queue argv env l = after_options a queue env l (parse atoi argv default_options)

-- What telemetry_gateway_start comes to in the environment that main has set.
abbrev pub start_in : Environment → Answers → Held → Option (Started × Held)
start_in env a l =
    telemetry_gateway_start
      (record a { stats_enabled = not (eqb_ℤ (knobs env).stats_enabled (pos 0)) }) l

-- The value that main returns tells whether the gateway started.
abbrev pub Tells : Environment → Answers → Held → ℕ → Type 0
Tells env a l n =
    ((h : Handles) × (own : Held) × (start_in env a l ≡ some (running h, own)) × (n ≡ 0))
    ⊎ ((code : ℕ) × (start_in env a l ≡ some (failed (suc code), l)) × (n ≡ 2))

run_gateway-returns :
    (a : Answers) (queue : List Bool) (env : Environment) (l : Held)
    → a.writer_th ≡ created
    → a.stats_th ≡ created
    → 0 < a.socket_fd
    → (n : ℕ) × (run_gateway a queue env l ≡ some (n, l)) × Tells env a l n
unfolding run_gateway after_start
run_gateway-returns a queue env l hw hs fd =
    let told = record a { stats_enabled = not (eqb_ℤ (knobs env).stats_enabled (pos 0)) } in
    elim (start-stop told l queue hw hs fd) [
      | inl (code, e) ↦ (2, rw (e, ◌>>=◌) refl, inr (code, e, refl))
      | inr (h, own, e, s) ↦ (0, rw (e, ◌>>=◌) (rw (s, ◌>>=◌) refl), inl (h, own, e, refl))
    ]

-- A command line that main does not accept makes it return 0, for --help, or 1.
abbrev LeavesSoon : Parsed → Type 0
LeavesSoon (run o) = Unit {0}
LeavesSoon (exit code) = code ≤ 1

one_flag :
    (f : Flag) (on : Parsed)
    → LeavesSoon on
    → LeavesSoon (elim f [ stats_flag ↦ on | help_flag ↦ exit 0 | unknown ↦ exit 1 ])
one_flag stats_flag on h = h
one_flag help_flag on h = omega arith
one_flag unknown on h = omega arith

parse-LeavesSoon :
    (atoi : CString → ℤ) (argv : List CString) (o : Options) → LeavesSoon (parse atoi argv o)
unfolding parse
parse-LeavesSoon atoi [] o = tt
parse-LeavesSoon atoi (arg ∷ []) o = one_flag (flag arg) (run (record o { stats = true })) tt
parse-LeavesSoon atoi (arg ∷ v ∷ rest) o =
    by_option (takes_value atoi arg) (λ o'. parse-LeavesSoon atoi rest o')
      (parse-LeavesSoon atoi (v ∷ rest) (record o { stats = true }))
  where
    by_option :
        (put : Option (CString → Options → Options))
        → ((o' : Options) → LeavesSoon (parse atoi rest o'))
        → LeavesSoon (parse atoi (v ∷ rest) (record o { stats = true }))
        → LeavesSoon (elim put [
          | some put ↦ parse atoi rest (put v o)
          | none ↦ elim (flag arg) [
            | stats_flag ↦ parse atoi (v ∷ rest) (record o { stats = true })
            | help_flag ↦ exit 0
            | unknown ↦ exit 1
          ]
        ])
    by_option (some put) later here = later (put v o)
    by_option none later here =
        one_flag (flag arg) (parse atoi (v ∷ rest) (record o { stats = true })) here

-- What main returns for a command line: at once for one that it does not accept, and else what tells
-- whether the gateway started.
abbrev pub Returns : Environment → Answers → Held → Parsed → ℕ → Type 0
Returns env a l (exit code) n = (n ≡ code) × (n ≤ 1)
Returns env a l (run o) n = Tells (export_settings (normalised o) env) a l n

-- Whatever the arguments, the environment and the answers of the system, as long as neither pthread_create of
-- a thread of the gateway fails and the socket of the server is not descriptor 0: main returns, and holds what
-- it held before, with any samples left in the queue. It returns 0 or 1 at once for a command line that it
-- does not accept. Otherwise it returns 0, behind the stop of the gateway, exactly when
-- telemetry_gateway_start with the settings of the command line returned one, and 2 when that failed.
pub main-Returns :
    (atoi : CString → ℤ) (a : Answers) (queue : List Bool) (argv : List CString) (env : Environment)
    (l : Held)
    → a.writer_th ≡ created
    → a.stats_th ≡ created
    → 0 < a.socket_fd
    → (n : ℕ) × (main atoi a queue argv env l ≡ some (n, l))
      × Returns env a l (parse atoi argv default_options) n
unfolding main after_options
main-Returns atoi a queue argv env l hw hs fd =
    by_line (parse atoi argv default_options) (parse-LeavesSoon atoi argv default_options)
  where
    by_line :
        (p : Parsed)
        → LeavesSoon p
        → (n : ℕ) × (after_options a queue env l p ≡ some (n, l)) × Returns env a l p n
    by_line (exit code) small = (code, refl, (refl, small))
    by_line (run o) small =
        run_gateway-returns a queue (export_settings (normalised o) env) l hw hs fd
