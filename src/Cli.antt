-- ===== src/Cli.antt =====
-- bls-runtime/src: the command line (cli_clap.rs), the configuration files (config.rs) and how
-- main.rs puts them together. Texts are byte lists; an error keeps no message.
pub mod Parsers
pub mod Override
pub mod Environment
pub mod Files
pub mod Start
use bls_runtime.Prelude.{ℕ, Bool, Option, none, some, List, Bytes}
use bls_runtime.Config.{
  BlocklessModule, Permission, PermissionGrant, PermissionsConfig, Stdin, Stdout,
}
use bls_runtime.Config.Options.{OptimizeOpts}

-- How a step of the command line ends: `anyhow` errors are `refused`, and `exits` is a call of
-- `std::process::exit`.
pub data Outcome {ℓ} (A : Type ℓ) : Type ℓ where
  done : A → Outcome A
  refused panics exits : Outcome A

infixl 5 ◌>>=◌
abbrev pub ◌>>=◌ {ℓ κ} : {A : Type ℓ} {B : Type κ} → Outcome A → (A → Outcome B) → Outcome B
done a >>= f = f a
refused >>= f = refused
panics >>= f = panics
exits >>= f = exits

-- `?` on an `Option` with a context.
abbrev pub or_refused {ℓ} : {A : Type ℓ} → Option A → Outcome A
or_refused none = refused
or_refused (some a) = done a

pub record PermissionFlags : Type 0 where
  pub allow_read : Option PermissionGrant
  pub allow_write : Option PermissionGrant
  pub allow_net : Option PermissionGrant
  pub deny_read : Option PermissionGrant
  pub deny_write : Option PermissionGrant
  pub deny_net : Option PermissionGrant
  pub allow_all : Bool

pub record StdioFlags : Type 0 where
  pub stdout : Option Stdout
  pub stdin : Option Stdin
  pub stderr : Option Stdout

pub record CliCommandOpts : Type 0 where
  pub v86 : Bool
  pub input : Bytes
  pub debug_info : Bool
  pub feature_thread : Bool
  pub fs_root_path : Option Bytes
  pub dirs : List (Bytes × Bytes)
  pub drivers_root_path : Option Bytes
  pub runtime_logger : Option Bytes
  pub limited_memory : Option ℕ
  pub run_time : Option ℕ
  pub entry : Option Bytes
  pub stdio : StdioFlags
  pub limited_fuel : Option ℕ
  pub envs : List (Bytes × Bytes)
  pub env_file : Option Bytes
  pub opts : Option OptimizeOpts
  pub permissions : List Permission
  pub modules : List BlocklessModule
  pub tcp_listens : List (Bytes × Option ℕ)
  pub args : List Bytes
  pub unknown_imports_trap : Bool
  pub cli_exit_with_code : Bool
  pub network_error_code : Bool
  pub max_memory_size : Option ℕ
  pub permission_flags : PermissionFlags
  pub nn : Bool
  pub nn_graph : List (Bytes × Bytes)
