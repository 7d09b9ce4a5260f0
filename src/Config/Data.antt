-- ===== src/Config/Data.antt =====
-- The data of a configuration: the types of crates/wasi-common/src/blockless/config.rs, and
-- `Permission` of permissions.rs.
use bls_runtime.Prelude.{
  ℕ, Bool, true, false, ◌||◌, Option, none, some, List, Bytes, codes, if◌then◌else◌, ◌==◌,
}
use bls_runtime.Prelude.Assoc.{Assoc}
use bls_runtime.Prelude.Text.{bytes_eq, bytes_beq, starts_with, to_ascii_lowercase}
use bls_runtime.Config.Options.{OptimizeOpts}

pub data LoggerLevel : Type 0 where
  info warn debug error trace : LoggerLevel

unfoldable pub logger_level : Bytes → LoggerLevel
logger_level value =
    if bytes_beq value (codes "debug") || bytes_beq value (codes "DEBUG")
    then debug
    else if bytes_beq value (codes "info") || bytes_beq value (codes "INFO")
    then info
    else if bytes_beq value (codes "warn") || bytes_beq value (codes "WARN")
    then warn
    else if bytes_beq value (codes "trace") || bytes_beq value (codes "TRACE")
    then trace
    else if bytes_beq value (codes "error") || bytes_beq value (codes "ERROR")
    then error
    else info

pub data Stdin : Type 0 where
  inherit : Stdin
  fixed : Bytes → Stdin

pub data Stdout : Type 0 where
  null : Stdout
  inherit_output : Stdout
  file_name : Bytes → Stdout

pub record Stdio : Type 0 where
  pub stdin : Stdin
  pub stdout : Stdout
  pub stderr : Stdout

pub record DriverConfig : Type 0 where
  pub schema : Bytes
  pub path : Bytes

pub data ModuleType : Type 0 where
  library entry_module_type : ModuleType

unfoldable pub parse_from_str : Bytes → ModuleType
parse_from_str s =
    if bytes_beq s (codes "entry") || bytes_beq s (codes "ENTRY")
    then entry_module_type
    else library

-- `partial_cmp`: whether the first stands strictly behind the second
unfoldable pub is_after : ModuleType → ModuleType → Bool
is_after library library = false
is_after library entry_module_type = false
is_after entry_module_type library = true
is_after entry_module_type entry_module_type = false

pub record BlocklessModule : Type 0 where
  pub module_type : ModuleType
  pub name : Bytes
  pub file : Bytes
  pub md5 : Bytes

pub data Version : Type 0 where
  version0 version1 : Version

-- `none` is the panic of `unreachable!`.
unfoldable pub version_of : ℕ → Option Version
version_of value = if value == 1 then some version1 else if value == 0 then some version0 else none

pub record StoreLimited : Type 0 where
  pub max_memory_size : Option ℕ
  pub max_table_elements : Option ℕ
  pub max_instances : Option ℕ
  pub max_tables : Option ℕ
  pub max_memories : Option ℕ
  pub trap_on_grow_failure : Option Bool

-- permissions.rs
pub record Permission : Type 0 where
  pub url : Bytes
  pub schema : Bytes

unfoldable pub is_permision : Permission → Bytes → Bool
is_permision p url = starts_with p.url (to_ascii_lowercase url)

pub data PermissionGrant : Type 0 where
  all : PermissionGrant
  list : List Bytes → PermissionGrant

pub record PermissionsConfig : Type 0 where
  pub allow_read : Option PermissionGrant
  pub allow_write : Option PermissionGrant
  pub deny_read : Option PermissionGrant
  pub deny_write : Option PermissionGrant
  pub allow_net : Option PermissionGrant
  pub deny_net : Option PermissionGrant
  pub allow_all : Bool

pub record BlocklessConfig : Type 0 where
  pub entry : Bytes
  pub nn : Bool
  pub stdio : Stdio
  pub debug_info : Bool
  pub is_carfile : Bool
  pub opts : OptimizeOpts
  pub feature_thread : Bool
  pub run_time : Option ℕ
  pub nn_graph : List (Bytes × Bytes)
  pub stdin_args : List Bytes
  pub coredump : Option Bytes
  pub limited_fuel : Option ℕ
  pub limited_time : Option ℕ
  pub drivers : List DriverConfig
  pub unknown_imports_trap : Bool
  pub store_limited : StoreLimited
  pub envs : List (Bytes × Bytes)
  pub permisions : List Permission
  pub dirs : List (Bytes × Bytes)
  pub fs_root_path : Option Bytes
  pub modules : List BlocklessModule
  pub runtime_logger : Option Bytes
  pub extensions_path : Option Bytes
  pub version : Version
  pub drivers_root_path : Option Bytes
  pub runtime_logger_level : LoggerLevel
  pub cli_exit_with_code : Bool
  pub network_error_code : Bool
  pub tcp_listens : List (Bytes × Option ℕ)
  pub group_permisions : Assoc Bytes (List Permission)
  pub permissions_config : PermissionsConfig
