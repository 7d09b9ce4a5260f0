-- ===== src/Config.antt =====
-- crates/wasi-common/src/blockless/config.rs: the configuration of a run. Texts are byte lists.
-- Setters and getters of one field are the fields of the record.
mod Data
pub mod Options
pub mod Resources
use bls_runtime.Prelude.{
  ℕ, ◌+◌, ◌%◌, ◌^◌, Bool, true, false, ◌||◌, Option, none, some, List, [], ◌∷◌, ◌++◌, Bytes, codes,
  if◌then◌else◌, ◌==◌,
}
use bls_runtime.Prelude.Assoc.{Assoc, lookup, insert}
use bls_runtime.Prelude.Text.{bytes_eq, bytes_beq, starts_with, to_ascii_lowercase}
use bls_runtime.Config.Options.{OptimizeOpts}
unfoldable pub use Data.*

unfoldable pub no_limits : StoreLimited
no_limits = record {
  max_memory_size = none;
  max_table_elements = none;
  max_instances = none;
  max_tables = none;
  max_memories = none;
  trap_on_grow_failure = none;
}

unfoldable pub default_permissions : PermissionsConfig
default_permissions = record {
  allow_read = none;
  allow_write = none;
  deny_read = none;
  deny_write = none;
  allow_net = none;
  deny_net = none;
  allow_all = false;
}

unfoldable pub new : Bytes → BlocklessConfig
unfolding no_limits default_permissions
new entry = record {
  entry = entry;
  nn = false;
  stdio = record { stdin = inherit; stdout = inherit_output; stderr = inherit_output };
  debug_info = false;
  is_carfile = false;
  opts = [];
  feature_thread = false;
  run_time = none;
  nn_graph = [];
  stdin_args = [];
  coredump = none;
  limited_fuel = none;
  limited_time = none;
  drivers = [];
  unknown_imports_trap = false;
  store_limited = no_limits;
  envs = [];
  permisions = [];
  dirs = [];
  fs_root_path = none;
  modules = [];
  runtime_logger = none;
  extensions_path = none;
  version = version0;
  drivers_root_path = none;
  runtime_logger_level = warn;
  cli_exit_with_code = false;
  network_error_code = false;
  tcp_listens = [];
  group_permisions = [];
  permissions_config = default_permissions;
}

abbrev pub or_nil {ℓ} : {A : Type ℓ} → Option (List A) → List A
or_nil none = []
or_nil (some xs) = xs

-- `entry(schema).or_insert_with(Vec::new).push(p)`
unfoldable pub group_push :
    Permission → Assoc Bytes (List Permission) → Assoc Bytes (List Permission)
group_push p groups = insert p.schema (or_nil (lookup p.schema groups) ++ (p ∷ [])) groups

unfoldable pub group_all :
    List Permission → Assoc Bytes (List Permission) → Assoc Bytes (List Permission)
unfolding group_push
group_all [] groups = groups
group_all (p ∷ ps) groups = group_all ps (group_push p groups)

unfoldable pub set_permisions : List Permission → BlocklessConfig → BlocklessConfig
unfolding group_all
set_permisions perms c = record c { permisions = perms; group_permisions = group_all perms [] }

-- `iter().any(is_permision)`
unfoldable pub any_permision : List Permission → Bytes → Bool
unfolding is_permision
any_permision [] url = false
any_permision (p ∷ ps) url = is_permision p url || any_permision ps url

unfoldable pub resource_permission : BlocklessConfig → Bytes → Bool
unfolding any_permision
resource_permission c url = any_permision c.permisions url

-- The two limits on memory, with the casts between `u64` and `usize` of a 64-bit host.
unfoldable pub max_memory_size : Option ℕ → BlocklessConfig → BlocklessConfig
max_memory_size m c = record c { store_limited = record c.store_limited { max_memory_size = m } }

unfoldable pub get_max_memory_size : BlocklessConfig → Option ℕ
get_max_memory_size c = c.store_limited.max_memories

unfoldable pub limited_memory : Option ℕ → BlocklessConfig → BlocklessConfig
limited_memory m c = record c { store_limited = record c.store_limited { max_memories = m } }

unfoldable pub get_limited_memory : BlocklessConfig → Option ℕ
get_limited_memory c = c.store_limited.max_memories

-- The first module of type entry.
unfoldable pub find_entry : List BlocklessModule → Option BlocklessModule
find_entry [] = none
find_entry (m ∷ ms) = elim m.module_type [ entry_module_type ↦ some m | library ↦ find_entry ms ]

module _ (path_file_name : Bytes → Option Bytes) (join : Bytes → Bytes → Bytes) where
  unfoldable pub entry_module : BlocklessConfig → Option Bytes
  unfolding find_entry
  entry_module c = elim c.version [
    | version0 ↦ path_file_name c.entry
    | version1 ↦ elim (find_entry c.modules) [ none ↦ none | some m ↦ path_file_name m.file ]
  ]

  unfoldable pub runtime_logger_path : BlocklessConfig → Option Bytes
  runtime_logger_path c = elim c.fs_root_path [
    | none ↦ none
    | some root ↦ elim c.runtime_logger [ none ↦ none | some l ↦ some (join root l) ]
  ]
