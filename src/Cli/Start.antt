-- ===== src/Cli/Start.antt =====
-- bls-runtime/src/main.rs: from the command line to the end of the process. Files, the logger,
-- the console, the car archives and the run itself belong to the host and are parameters.
pub mod Running
use bls_runtime.Prelude.{
  ℕ, Bool, true, false, ◌||◌, Option, none, some, List, [], ◌∷◌, Bytes, codes, if◌then◌else◌,
}
use bls_runtime.Prelude.Text.{bytes_beq, to_ascii_lowercase}
use bls_runtime.Config.{
  BlocklessModule, BlocklessConfig, LoggerLevel, Stdin, fixed, inherit, runtime_logger_path,
}
use bls_runtime.ExitCode.{ℤ, CliExitCode, configure_error, unknown_error, app_timeout, from_i32}
use bls_runtime.Cli.{Outcome, done, refused, panics, exits, CliCommandOpts}
use bls_runtime.Cli.Override.{Started, set_stdin, into_config}
use bls_runtime.Cli.Files.{EnvVar, present, new_with_wasm}

-- How the process ends: `main` returns a code, or `std::process::exit` takes one behind a sleep of
-- that many milliseconds, or it panics.
pub data Ending : Type 0 where
  returns : CliExitCode → Ending
  exits_after : ℕ → CliExitCode → Ending
  crashes : Ending

pub record Host : Type 0 where
  pub exists : Bytes → Bool
  pub from_path_iter : Bytes → Option (List (Option (Bytes × Bytes)))
  pub path_file_name : Bytes → Option Bytes
  pub join : Bytes → Bytes → Bytes
  pub extension : Bytes → Option Bytes
  pub file_md5 : Bytes → Option Bytes
  pub env_root_path : EnvVar
  pub extract_car : EnvVar → Bytes → Outcome BlocklessConfig
  pub read_config : EnvVar → Bytes → Outcome BlocklessConfig
  pub logger_init : Option Bytes → LoggerLevel → Option CliExitCode
  pub read_stdin : Option Bytes
  pub v86_run : Bytes → Ending
  pub message : Bytes
  pub format : ℤ → Bytes

module _ (host : Host) where
  -- `none` is `Ok`.
  unfoldable pub check_module_sum : List BlocklessModule → Option CliExitCode
  check_module_sum [] = none
  check_module_sum (m ∷ ms) = elim (host.file_md5 m.file) [
    | none ↦ some (unknown_error host.message)
    | some md5sum ↦ elim (bytes_beq md5sum m.md5) [
      | true ↦ check_module_sum ms
      | false ↦ some configure_error
    ]
  ]

  -- The variable `ENV_ROOT_PATH`, which `--fs-root-path` sets.
  unfoldable pub set_root_path_env_var : CliCommandOpts → EnvVar
  set_root_path_env_var opts = elim opts.fs_root_path [
    | none ↦ host.env_root_path
    | some s ↦ present s
  ]

  unfoldable pub load_cli_config : EnvVar → Bytes → Outcome BlocklessConfig
  unfolding new_with_wasm to_ascii_lowercase
  load_cli_config var file_path = elim (host.extension file_path) [
    | none ↦ host.read_config var file_path
    | some e ↦
        let ext = to_ascii_lowercase e in
        if bytes_beq ext (codes "car")
        then host.extract_car var file_path
        else if bytes_beq ext (codes "wasm")
            || bytes_beq ext (codes "wasi")
            || bytes_beq ext (codes "wat")
        then new_with_wasm host.path_file_name file_path
        else host.read_config var file_path
  ]

  -- `non_blocking_read`, where the input is fixed
  unfoldable pub fill_stdin : Stdin → Started → Started
  unfolding set_stdin
  fill_stdin inherit s = s
  fill_stdin (fixed text) s = elim host.read_stdin [
    | none ↦ s
    | some stdin_buffer ↦ set_stdin (fixed stdin_buffer) s
  ]

  module _ (blockless_run : Started → Option ℤ) where
    -- `run_time` is the one of the file; the task that ends the process is awaited.
    unfoldable pub run_app : Option ℕ → Started → Ending
    run_app (some time) s = exits_after time app_timeout
    run_app none s = elim (blockless_run s) [
      | none ↦ crashes
      | some code ↦ returns (from_i32 host.format code)
    ]

    unfoldable pub wasm_runtime : BlocklessConfig → CliCommandOpts → Ending
    unfolding into_config run_app fill_stdin runtime_logger_path from_i32
    wasm_runtime cfg opts =
        elim (host.logger_init (runtime_logger_path host.path_file_name host.join cfg)
          cfg.runtime_logger_level) [
            | some err ↦ returns err
            | none ↦
                elim (into_config host.exists host.from_path_iter opts
                  (record { config = cfg; is_inherit_stdin = true })) [
                    | done s ↦ run_app cfg.run_time (fill_stdin s.config.stdio.stdin s)
                    | refused ↦ crashes
                    | panics ↦ crashes
                    | exits ↦ crashes
                  ]
          ]

    -- the arm of `main` for WebAssembly
    unfoldable pub start_wasm : CliCommandOpts → Ending
    unfolding set_root_path_env_var load_cli_config check_module_sum wasm_runtime
    start_wasm opts = elim (load_cli_config (set_root_path_env_var opts) opts.input) [
      | done cfg ↦ elim (check_module_sum cfg.modules) [
        | some code ↦ returns code
        | none ↦ wasm_runtime cfg opts
      ]
      | refused ↦ returns (unknown_error host.message)
      | panics ↦ crashes
      | exits ↦ crashes
    ]

    unfoldable pub main : CliCommandOpts → Ending
    unfolding start_wasm
    main opts = if opts.v86 then host.v86_run opts.input else start_wasm opts
