-- ===== src/Tests/Settings.antt =====
-- Options, resources and permissions of a configuration.
use mathlib.Core.Option.{some-injective}
use bls_runtime.Prelude.{
  ℕ, ◌≡◌, refl, Bool, true, false, some, none, List, [], ◌∷◌, ◌++◌, Bytes, codes, All, ◌==◌, ap,
  sym,
}
use bls_runtime.Prelude.Assoc.{lookup, insert}
use bls_runtime.Prelude.Text.{starts_with, ascii_lower, to_ascii_lowercase, bytes_eq, bytes_beq}
use bls_runtime.Config
use bls_runtime.Config.{
  Permission, is_permision, any_permision, BlocklessConfig, resource_permission, set_permisions,
  PermissionsConfig, all, default_permissions,
}
use bls_runtime.Config.Options.{
  OptimizeOpts, item_value, opt_fields, parse_value, parse_number, parse_opt_level, config,
  optimize_options,
}
use bls_runtime.Config.Options.Laws.{optimize_options_rejects}
use bls_runtime.Config.Resources.{has_capital, with_schema, as_group, set_permisions-groups}
use bls_runtime.Permissions.{
  granted, prompt, UnaryPermission, Permissions, Library, set_permissions_config,
}
use bls_runtime.Permissions.Container.{base, ConfiguredFrom, set_permissions_config_lem}
use bls_runtime.Permissions.Parser.{ok, Paths, parse_path_query, parse_path_query-IsResolved}

abbrev items : List (Bytes × Bytes)
items = (codes "opt_level", codes "n") ∷ (codes "opt_level", codes "s") ∷ []

abbrev outcome : Bool × OptimizeOpts
outcome = config items []

-- Both values are levels, and both items name one option.
items_accepted : config items [] ≡ (true, outcome.1)
unfolding config item_value opt_fields parse_value parse_number parse_opt_level lookup insert
    bytes_beq
items_accepted = refl

abbrev quote : Bytes → Bytes
quote s = b'"' ∷ (s ++ (b'"' ∷ []))

optimize_options_rejects_example :
    optimize_options {Json = ℕ} quote ((codes "opt_level", 2) ∷ []) ≡ none
optimize_options_rejects_example =
    optimize_options_rejects quote (codes "opt_level", 2) [] (λ k. (k ++ (b'"' ∷ []), refl))

abbrev lower : Permission
lower = record { url = codes "http://a"; schema = codes "http" }

abbrev capital : Permission
capital = record { url = codes "http://A"; schema = codes "http" }

abbrev allows : Permission → BlocklessConfig
allows p = set_permisions (p ∷ []) (Config.new (codes "app.wasm"))

lower_granted : resource_permission (allows lower) (codes "HTTP://a") ≡ true
unfolding resource_permission any_permision is_permision starts_with to_ascii_lowercase ascii_lower
    set_permisions Config.new
lower_granted = refl

capital_there : All (λ (p : Permission). has_capital p.url ≡ true) (allows capital).permisions
unfolding has_capital set_permisions
capital_there = (refl, tt)

set_permisions-groups_example :
    (lookup (codes "http") (allows lower).group_permisions
      ≡ as_group (with_schema (codes "http") (lower ∷ [])))
    × ((allows lower).permisions ≡ lower ∷ [])
set_permisions-groups_example =
    set_permisions-groups (lower ∷ []) (Config.new (codes "app.wasm")) (codes "http")

abbrev none_granted : UnaryPermission ℕ
none_granted = record { granted_global = false; flag_denied_global = false; rest = 0 }

abbrev nothing : Permissions ℕ
nothing = record { read = none_granted; write = none_granted; net = none_granted; others = 0 }

-- A library that grants what is asked for when it is requested, and takes it back when revoked.
abbrev simple : Library
simple = record {
  Rest = ℕ;
  allow_all = nothing;
  from_options = λ o. some nothing;
  query = λ k arg p. (some prompt, p);
  revoke = λ k arg p. (some prompt, p);
  request = λ k arg p. (some granted, p);
}

abbrev read_all : PermissionsConfig
read_all = record default_permissions { allow_read = some all }

set_permissions_config_lem_example :
    ((p : Permissions ℕ)
      → base simple read_all ≡ some p
      → (q : Permissions ℕ) × (set_permissions_config simple read_all nothing ≡ (true, q))
        × ConfiguredFrom read_all p q)
    × (base simple read_all ≡ none
        → set_permissions_config simple read_all nothing ≡ (false, nothing))
set_permissions_config_lem_example = set_permissions_config_lem simple read_all nothing

is_rooted : Bytes → Bool
is_rooted [] = false
is_rooted (c ∷ s) = c == b'/'

rooted_join : (a b : Bytes) → is_rooted a ≡ true → is_rooted (a ++ (b'/' ∷ b)) ≡ true
unfolding is_rooted
rooted_join [] b h = cc
rooted_join (c ∷ s) b h = h

-- Paths as texts: a relative path is put behind the directory, and nothing is normalised.
abbrev texts : Paths
texts = record {
  FilePath = Bytes;
  from = λ s. s;
  is_absolute = is_rooted;
  join = λ a b. a ++ (b'/' ∷ b);
  normalize_path = λ p. p;
  is_absolute-join = rooted_join;
  is_absolute-normalize_path = λ p h. h;
}

query_app :
    parse_path_query texts (some (codes "/srv")) (codes "app") ≡ ok (codes "/srv/app", codes "app")
unfolding parse_path_query is_rooted
query_app = refl

srv_rooted : (d : Bytes) → some (codes "/srv") ≡ some d → is_rooted d ≡ true
unfolding is_rooted
srv_rooted d h = ap is_rooted (sym (some-injective _ _ h))

parse_path_query-IsResolved_example :
    (is_rooted (codes "/srv/app") ≡ true)
    × ((q : Bytes) × (codes "/srv/app" ≡ q))
    × (codes "app" ≡ codes "app")
parse_path_query-IsResolved_example =
    parse_path_query-IsResolved texts (some (codes "/srv")) srv_rooted (codes "app")
      (codes "/srv/app") (codes "app") query_app
