-- ===== src/Cli/Files/Items.antt =====
-- bls-runtime/src/config.rs: the items of a configuration file that are arrays. The JSON library
-- is a parameter: a value that is missing or of another type reads as none.
use bls_runtime.Prelude.{ℕ, Bool, Option, none, some, List, [], ◌∷◌, Bytes, codes, if◌then◌else◌}
use bls_runtime.Multiaddr.{ok, err, parse, schema}
use bls_runtime.Config.{
  BlocklessModule, ModuleType, library, parse_from_str, DriverConfig, Permission,
}
use bls_runtime.Cli.{Outcome, done, refused, ◌>>=◌, or_refused}

pub record JsonLibrary : Type 1 where
  pub Value : Type 0
  pub parse : Bytes → Option Value
  pub index : Value → Bytes → Value
  pub as_str : Value → Option Bytes
  pub as_u64 : Value → Option ℕ
  pub as_usize : Value → Option ℕ
  pub as_bool : Value → Option Bool
  pub is_null : Value → Bool
  pub is_array : Value → Bool
  pub is_object : Value → Bool
  pub array : Value → Option (List Value)
  pub members : Value → List Value
  pub entries : Value → List (Bytes × Value)
  pub stringify : Bytes → Bytes

abbrev pub or_text : Option Bytes → Bytes
or_text none = []
or_text (some s) = s

abbrev type_or_library : Option Bytes → ModuleType
type_or_library none = library
type_or_library (some s) = parse_from_str s

abbrev pub or_empty {ℓ} : {A : Type ℓ} → Option (List A) → List A
or_empty none = []
or_empty (some xs) = xs

-- The permission of one member, if its address is read.
unfoldable pub permission_of : (Bytes → Bool) → Option Bytes → Option Permission
unfolding parse schema
permission_of from_utf8 none = none
permission_of from_utf8 (some p) = elim (parse p) [
  | err e ↦ none
  | ok addr ↦ elim (schema from_utf8 addr) [
    | err e ↦ none
    | ok s ↦ some (record { url = p; schema = s })
  ]
]

module _ (lib : JsonLibrary) where
  abbrev pub item_texts : lib.Value → Bytes → Option Bytes
  item_texts json name = lib.as_str (lib.index json name)

  -- One member of `map_dirs`.
  unfoldable pub map_dir : lib.Value → Outcome (Bytes × Bytes)
  map_dir obj = do
    host ← or_refused (item_texts obj (codes "host"))
    guest ← or_refused (item_texts obj (codes "guest"))
    done (host, guest)

  unfoldable pub map_members : List lib.Value → Outcome (List (Bytes × Bytes))
  unfolding map_dir
  map_members [] = done []
  map_members (obj ∷ objs) = do dir ← map_dir obj; dirs ← map_members objs; done (dir ∷ dirs)

  unfoldable pub map_dirs : lib.Value → Outcome (List (Bytes × Bytes))
  unfolding map_members
  map_dirs json =
      if lib.is_null json
      then done []
      else if lib.is_array json
      then map_members (lib.members json)
      else refused

  module _ (from_utf8 : Bytes → Bool) where
    unfoldable pub filter_permissions : List lib.Value → List Permission
    unfolding permission_of
    filter_permissions [] = []
    filter_permissions (p ∷ ps) =
        let rest = filter_permissions ps in
        elim (permission_of from_utf8 (lib.as_str p)) [ none ↦ rest | some perm ↦ perm ∷ rest ]

    unfoldable pub permissions : lib.Value → List Permission
    unfolding filter_permissions
    permissions json = filter_permissions (or_empty (lib.array json))

  unfoldable pub driver_of : Option Bytes → Option Bytes → Option DriverConfig
  driver_of (some schema) (some path) = some (record { schema = schema; path = path })
  driver_of _ _ = none

  unfoldable pub filter_drivers : List lib.Value → List DriverConfig
  unfolding driver_of
  filter_drivers [] = []
  filter_drivers (c ∷ cs) =
      let rest = filter_drivers cs in
      elim (driver_of (item_texts c (codes "schema")) (item_texts c (codes "path"))) [
        | none ↦ rest
        | some d ↦ d ∷ rest
      ]

  unfoldable pub drivers : lib.Value → List DriverConfig
  unfolding filter_drivers
  drivers json = filter_drivers (or_empty (lib.array json))

  unfoldable pub module_of : lib.Value → BlocklessModule
  unfolding parse_from_str
  module_of c = record {
    module_type = type_or_library (item_texts c (codes "type"));
    name = or_text (item_texts c (codes "name"));
    file = or_text (item_texts c (codes "file"));
    md5 = or_text (item_texts c (codes "md5"));
  }

  unfoldable pub map_modules : List lib.Value → List BlocklessModule
  unfolding module_of
  map_modules [] = []
  map_modules (c ∷ cs) = module_of c ∷ map_modules cs

  unfoldable pub modules : lib.Value → List BlocklessModule
  unfolding map_modules
  modules json = map_modules (or_empty (lib.array json))
