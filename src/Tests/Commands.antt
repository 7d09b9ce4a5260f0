-- ===== src/Tests/Commands.antt =====
-- The command line, its environment, and the start of a run.
use bls_runtime.Prelude.{
  ◌≡◌, ◌≢◌, refl, Bool, true, false, Option, some, none, List, [], ◌∷◌, ◌++◌, Bytes, codes, ◌⊎◌,
  arith,
}
use bls_runtime.Prelude.Assoc.{lookup}
use bls_runtime.Prelude.Text.{bytes_eq, bytes_beq}
use bls_runtime.Config
use bls_runtime.Config.{BlocklessModule, BlocklessConfig, library, runtime_logger_path}
use bls_runtime.Config.Options.Laws.{or_else}
use bls_runtime.ExitCode.{ℤ, pos, CliExitCode, configure_error}
use bls_runtime.Cli.{Outcome, done, refused, PermissionFlags, StdioFlags, CliCommandOpts}
use bls_runtime.Cli.Parsers.{parse_opts}
use bls_runtime.Cli.Parsers.Pairs.{commas, parse_opts-crowded}
use bls_runtime.Cli.Environment.{EnvVars, file_vars, load_environment_vars}
use bls_runtime.Cli.Environment.Merging.{
  IsSorted, IsDistinct, last_of, load_environment_vars-lookup,
}
use bls_runtime.Cli.Override.{Started, into_config}
use bls_runtime.Cli.Override.Lost.{without_settings, into_config-forgets}
use bls_runtime.Cli.Override.Entry.{Runs, into_config-modules}
use bls_runtime.Cli.Files.{not_present}
use bls_runtime.Cli.Start.{
  returns, Host, load_cli_config, set_root_path_env_var, wasm_runtime, main,
}
use bls_runtime.Cli.Start.Running.{AreVerified, IsFailure, main_gate}

abbrev three_options : Bytes
three_options = codes "opt_level=s,memory_may_move=y,table_lazy_init=n"

two_commas : commas three_options ≡ 2
unfolding commas
two_commas = refl

parse_opts-crowded_example : parse_opts three_options ≡ refused
parse_opts-crowded_example = parse_opts-crowded three_options (omega (arith, two_commas))

abbrev no_flags : PermissionFlags
no_flags = record {
  allow_read = none;
  allow_write = none;
  allow_net = none;
  deny_read = none;
  deny_write = none;
  deny_net = none;
  allow_all = false;
}

abbrev no_stdio : StdioFlags
no_stdio = record { stdout = none; stdin = none; stderr = none }

abbrev math : BlocklessModule
math = record { module_type = library; name = codes "math"; file = codes "math.wasm"; md5 = [] }

-- A command line with one module, two variables and a file of variables.
abbrev command : CliCommandOpts
command = record {
  v86 = false;
  input = codes "app.wasm";
  debug_info = false;
  feature_thread = false;
  fs_root_path = none;
  dirs = [];
  drivers_root_path = none;
  runtime_logger = none;
  limited_memory = none;
  run_time = none;
  entry = none;
  stdio = no_stdio;
  limited_fuel = none;
  envs = (codes "PORT", codes "1") ∷ (codes "PORT", codes "2") ∷ [];
  env_file = some (codes ".env");
  opts = none;
  permissions = [];
  modules = math ∷ [];
  tcp_listens = [];
  args = [];
  unknown_imports_trap = false;
  cli_exit_with_code = false;
  network_error_code = false;
  max_memory_size = none;
  permission_flags = no_flags;
  nn = false;
  nn_graph = [];
}

abbrev there : Bytes → Bool
there f = true

abbrev dotenv : Bytes → Option (List (Option (Bytes × Bytes)))
dotenv f = some (some (codes "PORT", codes "0") ∷ none ∷ some (codes "HOST", codes "h") ∷ [])

abbrev from_file : EnvVars
from_file = (codes "PORT", codes "0") ∷ (codes "HOST", codes "h") ∷ []

file_read : file_vars there dotenv (some (codes ".env")) ≡ done from_file
unfolding file_vars
file_read = refl

names_differ : IsDistinct from_file
unfolding bytes_beq
names_differ = ((refl, tt), (tt, tt))

load_environment_vars-lookup_example :
    (r : EnvVars) × (load_environment_vars there dotenv command ≡ done r)
    × IsSorted r
    × (lookup (codes "PORT") r
        ≡ or_else (last_of (codes "PORT") command.envs) (lookup (codes "PORT") from_file))
load_environment_vars-lookup_example =
    load_environment_vars-lookup there dotenv command from_file (codes "PORT") file_read
      names_differ

-- The run has the last of the explicit values.
last_port : last_of (codes "PORT") command.envs ≡ some (codes "2")
unfolding last_of bytes_beq
last_port = refl

-- A configuration file with a root, a limit of fuel and a run time.
abbrev limited : BlocklessConfig
limited = record (Config.new (codes "_start")) {
  fs_root_path = some (codes "/data");
  limited_fuel = some 1000;
  run_time = some 50;
}

abbrev begun : Started
begun = record { config = limited; is_inherit_stdin = true }

into_config-forgets_example :
    into_config there dotenv command begun
    ≡ into_config there dotenv command (record begun { config = without_settings limited })
into_config-forgets_example = into_config-forgets there dotenv command begun

abbrev started_of : Outcome Started → Started
started_of (done s) = s
started_of _ = begun

abbrev changed : Started
changed = started_of (into_config there dotenv command begun)

command_accepted : into_config there dotenv command begun ≡ done changed
unfolding into_config load_environment_vars file_vars
command_accepted = refl

named : command.modules ≢ []
named h = cc

into_config-modules_example :
    Runs (λ path. some path) (λ a b. a) none (codes "app.wasm") changed.config
into_config-modules_example =
    into_config-modules there dotenv (λ path. some path) (λ a b. a) command begun changed (refl, tt)
      named command_accepted

-- A host that has one configuration file, with `limited` and one module.
abbrev stored : BlocklessConfig
stored = record limited { modules = math ∷ [] }

abbrev host : Host
host = record {
  exists = there;
  from_path_iter = dotenv;
  path_file_name = λ path. some path;
  join = λ a b. a ++ b;
  extension = λ path. some (codes "json");
  file_md5 = λ path. some (codes "d41d8cd9");
  env_root_path = not_present;
  extract_car = λ var path. refused;
  read_config = λ var path. done stored;
  logger_init = λ path level. none;
  read_stdin = none;
  v86_run = λ path. returns configure_error;
  message = [];
  format = λ code. [];
}

abbrev run_ok : Started → Option ℤ
run_ok s = some (pos 0)

stored_loaded :
    load_cli_config host (set_root_path_env_var host command) command.input ≡ done stored
unfolding load_cli_config bytes_beq
stored_loaded = refl

-- The checksum of the module is not that of its file.
main_gate_example :
    (AreVerified host stored.modules
      × (main host run_ok command ≡ wasm_runtime host run_ok stored command))
    ⊎ ((AreVerified host stored.modules → ⊥)
        × (code : CliExitCode) × (main host run_ok command ≡ returns code)
        × IsFailure host stored.modules code)
main_gate_example = main_gate host run_ok command stored refl stored_loaded
