-- ===== src/Cli/Files.antt =====
-- bls-runtime/src/config.rs: the configuration of a WebAssembly file and of a JSON text, with the
-- variables that are replaced in the text. The texts are UTF-8; paths are read by the host.
pub mod Items
pub mod Laws
use bls_runtime.Prelude.{
  ℕ, String, Bool, true, false, Option, none, some, List, [], ◌∷◌, ◌++◌, Bytes, codes,
  if◌then◌else◌,
}
use bls_runtime.Prelude.Text.{bytes_beq}
use bls_runtime.Prelude.Split.{split_first, replace}
use bls_runtime.Config
use bls_runtime.Config.{
  BlocklessConfig, logger_level, warn, LoggerLevel, version_of, Version, Stdin, inherit, fixed,
  set_permisions, limited_memory, max_memory_size,
}
use bls_runtime.Config.Options.{OptimizeOpts, optimize_options}
use bls_runtime.Cli.{Outcome, done, refused, panics, ◌>>=◌, or_refused}
use bls_runtime.Cli.Parsers.{stdio_cfg, parse_stdin}
use bls_runtime.Cli.Files.Items.{JsonLibrary, map_dirs, permissions, drivers, modules}

abbrev pub or_panics {ℓ} : {A : Type ℓ} → Option A → Outcome A
or_panics none = panics
or_panics (some a) = done a

-- The part in front of the first dot names the log file.
unfoldable pub default_logger_file : Bytes → Bytes
unfolding split_first
default_logger_file filen = elim (split_first (codes ".") filen).1 [
  | none ↦ codes "runtime"
  | some rest ↦ (split_first (codes ".") filen).0
]

-- `file_name` is the host's; a path without one panics.
unfoldable pub new_with_wasm : (Bytes → Option Bytes) → Bytes → Outcome BlocklessConfig
unfolding default_logger_file Config.new
new_with_wasm file_name wasm_file = or_panics (file_name wasm_file) >>= λ name.
    done (record (Config.new wasm_file) {
      fs_root_path = some (codes ".");
      runtime_logger_level = warn;
      runtime_logger = some (default_logger_file name ++ codes ".log");
    })

-- The environment variable `ENV_ROOT_PATH`.
pub data EnvVar : Type 0 where
  not_present not_unicode : EnvVar
  present : Bytes → EnvVar

abbrev pub or_nothing : Option Bytes → Bytes
or_nothing none = []
or_nothing (some s) = s

-- The names and what they are replaced with; `join` is the host's.
unfoldable pub env_variables :
    (Bytes → Bytes → Bytes) → EnvVar → Option Bytes → Outcome (List (Bytes × Bytes))
env_variables join not_present cid = done []
env_variables join not_unicode cid = refused
env_variables join (present s) cid =
    done ((codes "$ROOT", join s (or_nothing cid)) ∷ (codes "$ENV_ROOT_PATH", s) ∷ [])

unfoldable pub replace_each : List (Bytes × Bytes) → Bytes → Bytes
replace_each [] raw_json = raw_json
replace_each (var ∷ vars) raw_json = replace_each vars (replace var.0 var.1 raw_json)

unfoldable pub replace_vars :
    (Bytes → Bytes → Bytes) → EnvVar → Bytes → Option Bytes → Outcome Bytes
unfolding env_variables replace_each
replace_vars join var json_str cid =
    env_variables join var cid >>= λ vars. done (replace_each vars json_str)

-- `runtime_logger_level`, where it is a text
unfoldable pub level_or_default : Option Bytes → LoggerLevel → LoggerLevel
unfolding logger_level
level_or_default none level = level
level_or_default (some s) level = logger_level s

abbrev pub or_default {ℓ} : {A : Type ℓ} → Option A → A → A
or_default none d = d
or_default (some a) d = a

-- `stdin`: without it, a fixed empty text.
unfoldable pub stdin_of : Option Bytes → Stdin
unfolding parse_stdin
stdin_of none = fixed []
stdin_of (some s) = parse_stdin s

-- `set_version(v.into())`, where there is one: the conversion panics on an unknown version.
unfoldable pub read_version : Option ℕ → Version → Outcome Version
unfolding version_of
read_version none v = done v
read_version (some n) v = or_panics (version_of n)

module _ (lib : JsonLibrary) where
  -- The `optimize` item, where it is an object.
  unfoldable pub read_optimize : lib.Value → OptimizeOpts → Outcome OptimizeOpts
  unfolding optimize_options
  read_optimize item opts =
      if lib.is_object item
      then or_refused (optimize_options lib.stringify (lib.entries item))
      else done opts

module _ (lib : JsonLibrary) (from_utf8 : Bytes → Bool) where
  -- The fields that are read without an error.
  unfoldable pub read_fields :
      lib.Value → OptimizeOpts → List (Bytes × Bytes) → Version → BlocklessConfig → BlocklessConfig
  unfolding modules drivers level_or_default set_permisions permissions limited_memory
      max_memory_size stdin_of stdio_cfg
  read_fields json opts dirs version bc =
      let text = λ (name : String). lib.as_str (lib.index json (codes name)) in
      let number = λ (name : String). lib.as_u64 (lib.index json (codes name)) in
      let a = record bc {
        opts = opts;
        dirs = dirs;
        modules = modules lib (lib.index json (codes "modules"));
        extensions_path = text "extensions_path";
        fs_root_path = text "fs_root_path";
        drivers = drivers lib (lib.index json (codes "drivers"));
        debug_info = or_default (lib.as_bool (lib.index json (codes "debug_info"))) bc.debug_info;
        runtime_logger_level =
            level_or_default (text "runtime_logger_level") bc.runtime_logger_level;
      } in
      let perms = permissions lib from_utf8 (lib.index json (codes "permissions")) in
      let b = record (set_permisions perms a) {
        runtime_logger = text "runtime_logger";
        drivers_root_path = text "drivers_root_path";
        limited_fuel = number "limited_fuel";
      } in
      let c = limited_memory (number "limited_memory") b in
      record (max_memory_size (number "max_memory_size") c) {
        run_time = number "run_time";
        version = version;
        stdio = record {
          stdin = stdin_of (text "stdin");
          stdout = stdio_cfg (text "stdout");
          stderr = stdio_cfg (text "stderr");
        };
      }

  unfoldable pub from_json_string : Bytes → Outcome BlocklessConfig
  unfolding map_dirs read_optimize read_fields read_version Config.new
  from_json_string json_string = do
    json ← or_refused (lib.parse json_string)
    entry ← or_panics (lib.as_str (lib.index json (codes "entry")))
    dirs ← map_dirs lib (lib.index json (codes "map_dirs"))
    opts ← read_optimize lib (lib.index json (codes "optimize")) (Config.new entry).opts
    version ←
        read_version (lib.as_usize (lib.index json (codes "version"))) (Config.new entry).version
    done (read_fields json opts dirs version (Config.new entry))

  -- `from_data`; `from_file` does the same without a suffix to the text that it reads.
  unfoldable pub from_data :
      (Bytes → Bytes → Bytes) → EnvVar → Bytes → Option Bytes → Outcome BlocklessConfig
  unfolding replace_vars from_json_string
  from_data join var raw root_suffix = replace_vars join var raw root_suffix >>= from_json_string

  unfoldable pub from_file :
      (Bytes → Bytes → Bytes) → EnvVar → Option Bytes → Outcome BlocklessConfig
  unfolding replace_vars from_json_string
  from_file join var content =
      or_refused content >>= λ values. replace_vars join var values none >>= from_json_string

  unfoldable pub new_cliconfig :
      (Bytes → Bytes → Bytes) → EnvVar → Bytes → Option Bytes → Outcome BlocklessConfig
  unfolding from_data
  new_cliconfig join var raw_json root_suffix =
      from_data join var raw_json root_suffix >>= λ c. done (record c { is_carfile = true })
