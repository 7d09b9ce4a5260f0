-- ===== src/Cli/Override/Lost.antt =====
-- Which settings of a configuration file a run still has, and what it executes with modules.
use mathlib.Core.Path.{fun_ext}
use bls_runtime.Prelude.{
  ◌≡◌, refl, ap, sym, ◌∙◌, Bool, false, Option, none, some, List, [], ◌∷◌, Bytes,
}
use bls_runtime.Config.{
  BlocklessModule, Permission, BlocklessConfig, set_permisions, limited_memory, max_memory_size,
  default_permissions,
}
use bls_runtime.Cli.{done, ◌>>=◌, CliCommandOpts, StdioFlags}
use bls_runtime.Cli.Environment.{EnvVars, load_environment_vars}
use bls_runtime.Cli.Override.{
  Started, set_stdin, given, set_stdout, set_stderr, set_limits, set_stdio, add_permissions,
  add_modules, reset_modules_model_entry, apply_opts, into_config,
}

-- A configuration without what its file says of the run: the root, the log file, the directories,
-- the limits, the arguments, the environment, the permission flags and the drivers' root.
unfoldable pub without_settings : BlocklessConfig → BlocklessConfig
unfolding default_permissions
without_settings c = record c {
  debug_info = false;
  fs_root_path = none;
  runtime_logger = none;
  limited_fuel = none;
  run_time = none;
  stdin_args = [];
  dirs = [];
  feature_thread = false;
  store_limited = record c.store_limited { max_memories = none; max_memory_size = none };
  permissions_config = default_permissions;
  envs = [];
  drivers_root_path = none;
  nn = false;
  nn_graph = [];
  tcp_listens = [];
  network_error_code = false;
  unknown_imports_trap = false;
}

-- The settings among them that are only overwritten at the end.
abbrev last : BlocklessConfig → BlocklessConfig
last c = record c {
  nn = false;
  nn_graph = [];
  tcp_listens = [];
  network_error_code = false;
  unknown_imports_trap = false;
}

abbrev late : BlocklessConfig → BlocklessConfig
late c = record (last c) { envs = []; drivers_root_path = none }

abbrev late_in : Started → Started
late_in s = record s { config = late s.config }

-- An optional change that leaves the settings of the end alone.
given-late :
    {A : Type 0} (o : Option A) (f : A → Started → Started)
    → ((a : A) (s : Started) → f a (late_in s) ≡ late_in (f a s))
    → (s : Started) → given o f (late_in s) ≡ late_in (given o f s)
given-late none f h s = refl
given-late (some a) f h s = h a s

set_stdio-late :
    (flags : StdioFlags) (s : Started) → set_stdio flags (late_in s) ≡ late_in (set_stdio flags s)
unfolding set_stdio set_stdin set_stdout set_stderr
set_stdio-late flags s =
    let a = given flags.stderr set_stderr s in
    let b = given flags.stdout set_stdout a in
    ap (λ x. given flags.stdin set_stdin (given flags.stdout set_stdout x))
      (given-late flags.stderr set_stderr (λ e x. refl) s)
    ∙ ap (given flags.stdin set_stdin) (given-late flags.stdout set_stdout (λ o x. refl) a)
    ∙ given-late flags.stdin set_stdin (λ i x. refl) b

add_permissions-late :
    (ps : List Permission) (c : BlocklessConfig)
    → add_permissions ps (late c) ≡ late (add_permissions ps c)
unfolding add_permissions set_permisions
add_permissions-late [] c = refl
add_permissions-late (p ∷ ps) c = refl

add_modules-last :
    (entry : Option Bytes) (ms : List BlocklessModule) (input : Bytes) (c : BlocklessConfig)
    → add_modules entry ms input (last c) ≡ last (add_modules entry ms input c)
unfolding add_modules reset_modules_model_entry
add_modules-last none [] input c = refl
add_modules-last none (m ∷ ms) input c = refl
add_modules-last (some e) [] input c = refl
add_modules-last (some e) (m ∷ ms) input c = refl

-- The statements of `apply_opts` between the permissions and the modules, and behind the modules.
abbrev between : CliCommandOpts → EnvVars → BlocklessConfig → BlocklessConfig
between opts envs c = record c { envs = envs; drivers_root_path = opts.drivers_root_path }

abbrev behind : CliCommandOpts → BlocklessConfig → BlocklessConfig
behind opts c = record c {
  nn = opts.nn;
  tcp_listens = opts.tcp_listens;
  network_error_code = opts.network_error_code;
  unknown_imports_trap = opts.unknown_imports_trap;
  nn_graph = opts.nn_graph;
}

finished : CliCommandOpts → EnvVars → BlocklessConfig → BlocklessConfig
finished opts envs c = behind opts (
    add_modules opts.entry opts.modules opts.input
      (between opts envs (add_permissions opts.permissions c)))

finished-late :
    (opts : CliCommandOpts) (envs : EnvVars) (c : BlocklessConfig)
    → finished opts envs (late c) ≡ finished opts envs c
unfolding finished
finished-late opts envs c =
    let y = add_permissions opts.permissions c in
    ap (λ x. behind opts (add_modules opts.entry opts.modules opts.input (between opts envs x)))
      (add_permissions-late opts.permissions c)
    ∙ ap (behind opts) (add_modules-last opts.entry opts.modules opts.input (between opts envs y))

apply_opts-forgets :
    (opts : CliCommandOpts) (envs : EnvVars) (s : Started)
    → apply_opts opts envs (record s { config = without_settings s.config })
      ≡ apply_opts opts envs s
unfolding apply_opts without_settings set_limits limited_memory max_memory_size finished
apply_opts-forgets opts envs s =
    let a = set_stdio opts.stdio (record s { config = set_limits opts s.config }) in
    ap (λ (x : Started). record x { config = finished opts envs x.config })
      (set_stdio-late opts.stdio (record s { config = set_limits opts s.config }))
    ∙ ap (λ c. record a { config = c }) (finished-late opts envs a.config)

-- Whatever a configuration file says of its root, log file, directories, limits, arguments,
-- environment, permission flags and drivers' root, a run has the same configuration as without it,
-- also where the command line does not name the setting.
pub into_config-forgets :
    (exists : Bytes → Bool) (from_path_iter : Bytes → Option (List (Option (Bytes × Bytes))))
    (opts : CliCommandOpts) (s : Started)
    → into_config exists from_path_iter opts s
      ≡ into_config exists from_path_iter opts (record s { config = without_settings s.config })
unfolding into_config
into_config-forgets exists from_path_iter opts s =
    ap (◌>>=◌ (load_environment_vars exists from_path_iter opts))
      (fun_ext λ envs. ap done (sym (apply_opts-forgets opts envs s)))
