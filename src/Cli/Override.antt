-- ===== src/Cli/Override.antt =====
-- cli_clap.rs, `into_config`: how the command line changes the configuration of a file; and what
-- `parse_args` of main.rs does to the permission flags.
pub mod Lost
pub mod Entry
use bls_runtime.Prelude.{
  ℕ, Bool, true, false, Option, none, some, List, [], ◌∷◌, ◌++◌, Bytes, codes,
}
use bls_runtime.Config.{
  BlocklessModule, entry_module_type, Stdin, fixed, inherit, Stdout, Permission, PermissionGrant,
  all, PermissionsConfig, BlocklessConfig, version1, set_permisions, limited_memory,
  max_memory_size,
}
use bls_runtime.Cli.{Outcome, done, refused, ◌>>=◌, PermissionFlags, StdioFlags, CliCommandOpts}
use bls_runtime.Cli.Environment.{EnvVars, load_environment_vars}

-- `set_perm_grant!`: a flag that is present without a value grants everything.
unfoldable pub set_perm_grant : Bool → Option PermissionGrant → Option PermissionGrant
set_perm_grant present (some grant) = some grant
set_perm_grant true none = some all
set_perm_grant false none = none

-- `From<PermissionFlags>`
unfoldable pub into_permissions_config : PermissionFlags → PermissionsConfig
into_permissions_config val = record {
  allow_read = val.allow_read;
  allow_write = val.allow_write;
  deny_read = val.deny_read;
  deny_write = val.deny_write;
  allow_net = val.allow_net;
  deny_net = val.deny_net;
  allow_all = val.allow_all;
}

-- The configuration of a process, and its flag `IS_INHERIT_STDIN`.
pub record Started : Type 0 where
  pub config : BlocklessConfig
  pub is_inherit_stdin : Bool

abbrev pub is_inherit : Stdin → Bool
is_inherit (fixed s) = false
is_inherit inherit = true

-- `Stdio::stdin` sets the flag of the process too.
unfoldable pub set_stdin : Stdin → Started → Started
set_stdin stdin s = record {
  config = record s.config { stdio = record s.config.stdio { stdin = stdin } };
  is_inherit_stdin = is_inherit stdin;
}

abbrev pub given {ℓ} : {A S : Type ℓ} → Option A → (A → S → S) → S → S
given none f s = s
given (some a) f s = f a s

-- the statements up to the permissions of the flags
unfoldable pub set_limits : CliCommandOpts → BlocklessConfig → BlocklessConfig
unfolding limited_memory max_memory_size into_permissions_config
set_limits opts c =
    let a = record c {
      debug_info = opts.debug_info;
      fs_root_path = opts.fs_root_path;
      runtime_logger = opts.runtime_logger;
    } in
    let b = record (limited_memory opts.limited_memory a) {
      limited_fuel = opts.limited_fuel;
      run_time = opts.run_time;
      stdin_args = opts.args;
      dirs = opts.dirs;
      feature_thread = opts.feature_thread;
    } in
    record (max_memory_size opts.max_memory_size b) {
      permissions_config = into_permissions_config opts.permission_flags;
    }

unfoldable pub set_stdout : Stdout → Started → Started
set_stdout o s = record s {
  config = record s.config { stdio = record s.config.stdio { stdout = o } };
}

unfoldable pub set_stderr : Stdout → Started → Started
set_stderr e s = record s {
  config = record s.config { stdio = record s.config.stdio { stderr = e } };
}

unfoldable pub set_stdio : StdioFlags → Started → Started
unfolding set_stdin set_stdout set_stderr
set_stdio flags s =
    given flags.stdin set_stdin (given flags.stdout set_stdout (given flags.stderr set_stderr s))

-- the permissions of `--permission`
unfoldable pub add_permissions : List Permission → BlocklessConfig → BlocklessConfig
unfolding set_permisions
add_permissions [] c = c
add_permissions (p ∷ ps) c = set_permisions (p ∷ ps) c

unfoldable pub entry_module_of : Bytes → BlocklessModule
entry_module_of input = record {
  module_type = entry_module_type;
  name = [];
  file = input;
  md5 = [];
}

-- `reset_modules_model_entry`
unfoldable pub reset_modules_model_entry : BlocklessConfig → BlocklessConfig
reset_modules_model_entry c = record c { entry = codes "_start" }

-- the modules and the entry, for the options `entry`, `module` and the input
unfoldable pub add_modules :
    Option Bytes → List BlocklessModule → Bytes → BlocklessConfig → BlocklessConfig
unfolding entry_module_of reset_modules_model_entry
add_modules none [] input c = c
add_modules (some e) [] input c = record c { entry = e }
add_modules none (m ∷ ms) input c =
    record (reset_modules_model_entry
      (record c { modules = (m ∷ ms) ++ (entry_module_of input ∷ []) })) { version = version1 }
add_modules (some e) (m ∷ ms) input c = record c {
  entry = e;
  modules = (m ∷ ms) ++ (entry_module_of input ∷ []);
  version = version1;
}

-- the statements behind the loading of the environment
unfoldable pub apply_opts : CliCommandOpts → EnvVars → Started → Started
unfolding set_limits set_stdio add_permissions add_modules
apply_opts opts envs s =
    let a = set_stdio opts.stdio (record s { config = set_limits opts s.config }) in
    let b = record (add_permissions opts.permissions a.config) {
      envs = envs;
      drivers_root_path = opts.drivers_root_path;
    } in
    record a {
      config = record (add_modules opts.entry opts.modules opts.input b) {
        nn = opts.nn;
        tcp_listens = opts.tcp_listens;
        network_error_code = opts.network_error_code;
        unknown_imports_trap = opts.unknown_imports_trap;
        nn_graph = opts.nn_graph;
      };
    }

module _ (exists : Bytes → Bool)
    (from_path_iter : Bytes → Option (List (Option (Bytes × Bytes)))) where
  unfoldable pub into_config : CliCommandOpts → Started → Outcome Started
  unfolding apply_opts
  into_config opts s =
      load_environment_vars exists from_path_iter opts >>= λ envs. done (apply_opts opts envs s)
