-- ===== src/Cli/Parsers.antt =====
-- cli_clap.rs, the parsers of the values that clap hands over. The URL parser, the resolution of
-- addresses and the printing of the option help belong to others; the first two are parameters.
pub mod Commas
pub mod Pairs
use bls_runtime.Prelude.{
  ℕ, ◌^◌, Bool, true, false, ◌&&◌, Option, none, some, List, [], ◌∷◌, Bytes, codes, if◌then◌else◌,
}
use bls_runtime.Prelude.Text.{bytes_beq, from_str_radix}
use bls_runtime.Prelude.Split.{split_first, split_all}
use bls_runtime.Config.{
  BlocklessModule, library, Permission, PermissionGrant, all, list, Stdin, inherit, fixed, Stdout,
  null, inherit_output, file_name,
}
use bls_runtime.Config.Options.{OptimizeOpts, config}
use bls_runtime.Cli.{Outcome, done, refused, panics, exits, ◌>>=◌}

-- A text of the form `key=value`; `parse_nn_graph` makes the same test and calls its parts
-- `format` and `dir`.
unfoldable pub parse_envs : Bytes → Outcome (Bytes × Bytes)
unfolding split_first
parse_envs envs = elim (split_first (codes "=") envs).1 [
  | none ↦ refused
  | some value ↦ done ((split_first (codes "=") envs).0, value)
]

unfoldable pub parse_nn_graph : Bytes → Outcome (Bytes × Bytes)
unfolding split_first
parse_nn_graph envs = elim (split_first (codes "=") envs).1 [
  | none ↦ refused
  | some dir ↦ done ((split_first (codes "=") envs).0, dir)
]

-- the loop over the pieces of the option text
unfoldable pub parse_items : List Bytes → Outcome (List (Bytes × Bytes))
unfolding parse_envs
parse_items [] = done []
parse_items (kv ∷ kvs) = do item ← parse_envs kv; rest ← parse_items kvs; done (item ∷ rest)

-- `splitn(2, ",")`
unfoldable pub two_pieces : Bytes → List Bytes
unfolding split_first
two_pieces opt = elim (split_first (codes ",") opt).1 [
  | none ↦ (split_first (codes ",") opt).0 ∷ []
  | some rest ↦ (split_first (codes ",") opt).0 ∷ rest ∷ []
]

-- The default of the options is that none is set.
unfoldable pub parse_opts : Bytes → Outcome OptimizeOpts
unfolding two_pieces parse_items config
parse_opts opt = if bytes_beq opt (codes "help") then exits else (do
  parsed ← parse_items (two_pieces opt)
  let r = config parsed []
  if r.0 then done r.1 else refused)

-- `scheme` is the scheme of the URL that the library parses, if it does.
unfoldable pub parse_permission : (Bytes → Option Bytes) → Bytes → Outcome Permission
parse_permission scheme permsion = elim (scheme permsion) [
  | none ↦ refused
  | some s ↦ done (record { url = permsion; schema = s })
]

-- `PermissionGrant::parse`
unfoldable pub parser_allow : Bytes → PermissionGrant
unfolding split_all
parser_allow [] = all
parser_allow (c ∷ s) = list (split_all b',' (c ∷ s))

-- `mods[1]` panics where the text has no `=`.
unfoldable pub parse_module : Bytes → Outcome BlocklessModule
unfolding split_first
parse_module text = elim (split_first (codes "=") text).1 [
  | none ↦ panics
  | some file ↦ done (record {
    module_type = library;
    name = (split_first (codes "=") text).0;
    file = file;
    md5 = [];
  })
]

-- `stdio_cfg!`
unfoldable pub stdio_cfg : Option Bytes → Stdout
stdio_cfg none = inherit_output
stdio_cfg (some s) =
    if bytes_beq s (codes "inherit")
    then inherit_output
    else if bytes_beq s (codes "null")
    then null
    else file_name s

-- `parse_stdout` and `parse_stderr`
unfoldable pub parse_stdout : Bytes → Stdout
unfolding stdio_cfg
parse_stdout s = stdio_cfg (some s)

unfoldable pub parse_stdin : Bytes → Stdin
parse_stdin s = if bytes_beq s (codes "inherit") then inherit else fixed s

abbrev first_of : List Bytes → Option Bytes
first_of [] = none
first_of (a ∷ as') = some a

-- `to_socket_addrs` gives the addresses of a text, or fails; without an address there is an error.
unfoldable pub resolve : (Bytes → Option (List Bytes)) → Bytes → Outcome Bytes
resolve to_socket_addrs s = elim (to_socket_addrs s) [
  | none ↦ refused
  | some addrs ↦ elim (first_of addrs) [ none ↦ refused | some a ↦ done a ]
]

unfoldable pub parse_listen : (Bytes → Option (List Bytes)) → Bytes → Outcome (Bytes × Option ℕ)
unfolding split_first resolve
parse_listen to_socket_addrs s = elim (split_first (codes "::") s).1 [
  | none ↦ resolve to_socket_addrs s >>= λ a. done (a, none)
  | some port ↦ elim (from_str_radix (2 ^ 32) 10 port) [
    | none ↦ refused
    | some fd ↦ resolve to_socket_addrs (split_first (codes "::") s).0 >>= λ a. done (a, some fd)
  ]
]

-- `split("::")`: the first two pieces, or the first one twice.
unfoldable pub parse_dirs : Bytes → Bytes × Bytes
unfolding split_first
parse_dirs s = elim (split_first (codes "::") s).1 [
  | none ↦ ((split_first (codes "::") s).0, (split_first (codes "::") s).0)
  | some rest ↦ ((split_first (codes "::") s).0, (split_first (codes "::") rest).0)
]
