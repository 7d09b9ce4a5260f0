-- ===== src/Cli/Start/Running.antt =====
-- When `main` starts the application of a configuration.
use mathlib.Core.Option.{some-injective}
use bls_runtime.Prelude.{
  ◌≡◌, ◌≢◌, ◌++◌, refl, ap, sym, ◌∙◌, false, Option, none, some, List, [], ◌∷◌, Bytes, All,
  if◌then◌else◌, Bool-cases, Option-cases, ◌⊎◌, inl, inr,
}
use bls_runtime.Prelude.Text.{bytes_beq, bytes_beq_iff}
use bls_runtime.Config.{BlocklessModule, BlocklessConfig}
use bls_runtime.ExitCode.{ℤ, CliExitCode, configure_error, unknown_error}
use bls_runtime.Cli.{done, CliCommandOpts}
use bls_runtime.Cli.Override.{Started}
use bls_runtime.Cli.Start.{
  returns, Host, check_module_sum, load_cli_config, set_root_path_env_var, wasm_runtime, start_wasm,
  main,
}

-- The file of every module is read and has the checksum of the configuration.
abbrev pub AreVerified : Host → List BlocklessModule → Type 0
AreVerified host = All (λ (m : BlocklessModule). host.file_md5 m.file ≡ some m.md5)

-- Why a check of one module fails: its file is not read, or has another checksum.
abbrev pub IsFault : Host → BlocklessModule → CliExitCode → Type 0
IsFault host m code =
    ((host.file_md5 m.file ≡ none) × (code ≡ unknown_error host.message))
    ⊎ ((sum : Bytes) × (host.file_md5 m.file ≡ some sum) × (sum ≢ m.md5) × (code ≡ configure_error))

-- The code of a failed check is that of the first module at which it fails.
abbrev pub IsFailure : Host → List BlocklessModule → CliExitCode → Type 0
IsFailure host ms code =
    (before : List BlocklessModule) × (m : BlocklessModule) × (after : List BlocklessModule) × (ms
      ≡ before ++ (m ∷ after))
    × AreVerified host before
    × IsFault host m code

unlike : (a b : Bytes) → bytes_beq a b ≡ false → a ≡ b → ⊥
unlike a b h e = cc ((bytes_beq_iff a b).1 e, h)

checked :
    (host : Host) (ms : List BlocklessModule)
    → (AreVerified host ms × (check_module_sum host ms ≡ none))
      ⊎ ((AreVerified host ms → ⊥)
          × (code : CliExitCode) × (check_module_sum host ms ≡ some code)
          × IsFailure host ms code)
unfolding check_module_sum
checked host [] = inl (tt, refl)
checked host (m ∷ ms) = elim (Option-cases (host.file_md5 m.file)) [
  | inl unread ↦ inr (
    λ v. absurd (cc (unread, v.0)),
    unknown_error host.message,
    rw (unread, check_module_sum) refl,
    ([], m, ms, refl, tt, inl (unread, refl)),
  )
  | inr (sum, read) ↦ elim (Bool-cases (bytes_beq sum m.md5)) [
    | inr differs ↦ inr (
      λ v. absurd (unlike sum m.md5 differs (some-injective _ _ (sym read ∙ v.0))),
      configure_error,
      rw (read, differs, check_module_sum) refl,
      ([], m, ms, refl, tt, inr (sum, read, unlike sum m.md5 differs, refl)),
    )
    | inl same ↦ elim (checked host ms) [
      | inl (v, ok) ↦ inl (
        (read ∙ ap some ((bytes_beq_iff sum m.md5).0 same), v),
        rw (read, same, check_module_sum) ok,
      )
      | inr (bad, code, failed, (before, n, after, split, good, fault)) ↦ inr (
        λ v. bad v.1,
        code,
        rw (read, same, check_module_sum) failed,
        (
          m ∷ before,
          n,
          after,
          ap (λ rest. m ∷ rest) split,
          (read ∙ ap some ((bytes_beq_iff sum m.md5).0 same), good),
          fault,
        ),
      )
    ]
  ]
]

-- A configuration that is loaded is run exactly where every module's file has its checksum;
-- otherwise `main` returns at once, with the code of the first module at which the check fails: the
-- configuration error where its file has another checksum, the unknown error where its file is not
-- read.
pub main_gate :
    (host : Host) (blockless_run : Started → Option ℤ) (opts : CliCommandOpts)
    (cfg : BlocklessConfig)
    → opts.v86 ≡ false
    → load_cli_config host (set_root_path_env_var host opts) opts.input ≡ done cfg
    → (AreVerified host cfg.modules
        × (main host blockless_run opts ≡ wasm_runtime host blockless_run cfg opts))
      ⊎ ((AreVerified host cfg.modules → ⊥)
          × (code : CliExitCode) × (main host blockless_run opts ≡ returns code)
          × IsFailure host cfg.modules code)
unfolding main start_wasm
main_gate host blockless_run opts cfg wasm loaded =
    let chosen : main host blockless_run opts ≡ start_wasm host blockless_run opts =
      ap (λ v86. if v86 then host.v86_run opts.input else start_wasm host blockless_run opts)
        wasm in
    elim (checked host cfg.modules) [
      | inl (v, ok) ↦ inl (v, chosen ∙ rw (loaded, ok, start_wasm) refl)
      | inr (bad, code, failed, kind) ↦
          inr (bad, code, chosen ∙ rw (loaded, failed, start_wasm) refl, kind)
    ]
