-- ===== src/Cli/Environment.antt =====
-- cli_clap.rs, `load_environment_vars`. Whether the file exists and what dotenvy reads from it,
-- line by line, are parameters; a line that is not read is left out.
pub mod Merging
use bls_runtime.Prelude.{
  ℕ, Bool, true, false, ◌&&◌, ◌||◌, Option, none, some, List, [], ◌∷◌, ◌++◌, Bytes, if◌then◌else◌,
  ltb, ◌==◌,
}
use bls_runtime.Prelude.Text.{bytes_beq}
use bls_runtime.Cli.{Outcome, done, refused, ◌>>=◌, or_refused, CliCommandOpts}

abbrev pub EnvVars : Type 0
EnvVars = List (Bytes × Bytes)

-- `filter_map(Result::ok)`
abbrev pub all_ok : List (Option (Bytes × Bytes)) → EnvVars
all_ok [] = []
all_ok (none ∷ items) = all_ok items
all_ok (some e ∷ items) = e ∷ all_ok items

-- `position` and `remove`: the first entry with the name goes.
unfoldable pub remove_first : Bytes → EnvVars → EnvVars
remove_first k [] = []
remove_first k (e ∷ m) = let rest = remove_first k m in if bytes_beq e.0 k then m else e ∷ rest

-- the loop over the explicit variables
unfoldable pub set_all : EnvVars → EnvVars → EnvVars
unfolding remove_first
set_all [] m = m
set_all (e ∷ es) m = set_all es (remove_first e.0 m ++ (e ∷ []))

-- The order of `String`: byte by byte.
unfoldable pub le_bytes : Bytes → Bytes → Bool
le_bytes [] b = true
le_bytes (x ∷ a) [] = false
le_bytes (x ∷ a) (y ∷ b) = ltb x y || (x == y && le_bytes a b)

-- The stable `sort_by`: an entry moves behind those with a smaller key.
unfoldable pub sort_in : Bytes × Bytes → EnvVars → EnvVars
unfolding le_bytes
sort_in e [] = e ∷ []
sort_in e (f ∷ m) = let rest = sort_in e m in if le_bytes e.0 f.0 then e ∷ f ∷ m else f ∷ rest

unfoldable pub sort_by_key : EnvVars → EnvVars
unfolding sort_in
sort_by_key [] = []
sort_by_key (e ∷ m) = sort_in e (sort_by_key m)

module _ (exists : Bytes → Bool)
    (from_path_iter : Bytes → Option (List (Option (Bytes × Bytes)))) where
  unfoldable pub file_vars : Option Bytes → Outcome EnvVars
  file_vars none = done []
  file_vars (some env_path) =
      if exists env_path
      then or_refused (from_path_iter env_path) >>= (λ items. done (all_ok items))
      else done []

  unfoldable pub load_environment_vars : CliCommandOpts → Outcome EnvVars
  unfolding file_vars set_all sort_by_key
  load_environment_vars opts =
      file_vars opts.env_file >>= λ vars. done (sort_by_key (set_all opts.envs vars))
