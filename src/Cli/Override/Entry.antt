-- ===== src/Cli/Override/Entry.antt =====
-- What a run executes when the command line names modules.
use mathlib.Core.Path.{subst}
use bls_runtime.Prelude.{
  Bool, ◌≡◌, ◌≢◌, refl, ap, sym, Option, none, some, List, [], ◌∷◌, ◌++◌, Bytes, All, codes,
}
use bls_runtime.Config.{
  BlocklessModule, ModuleType, library, entry_module_type, BlocklessConfig, Version, version0,
  version1, find_entry, entry_module,
}
use bls_runtime.Cli.{Outcome, done, refused, panics, exits, ◌>>=◌, CliCommandOpts}
use bls_runtime.Cli.Environment.{load_environment_vars}
use bls_runtime.Cli.Override.{
  Started, add_modules, entry_module_of, reset_modules_model_entry, apply_opts, into_config,
}

abbrev pub AreLibraries : List BlocklessModule → Type 0
AreLibraries = All (λ (m : BlocklessModule). m.module_type ≡ library)

abbrev pub or_start : Option Bytes → Bytes
or_start none = codes "_start"
or_start (some e) = e

-- Behind libraries, the entry is found.
find_entry-last :
    (ms : List BlocklessModule) (input : Bytes)
    → AreLibraries ms
    → find_entry (ms ++ (entry_module_of input ∷ [])) ≡ some (entry_module_of input)
unfolding find_entry entry_module_of
find_entry-last [] input h = refl
find_entry-last (m ∷ ms) input h = skip m.module_type h.0 (find_entry-last ms input h.1)
  where
    skip :
        {o p : Option BlocklessModule} (t : ModuleType)
        → t ≡ library
        → o ≡ p
        → (elim t [ entry_module_type ↦ some m | library ↦ o ]) ≡ p
    skip t e h = rw e h

-- What a run executes: a configuration of the new version, whose entry module is the input and
-- whose start function is the named one.
abbrev pub Runs :
    (Bytes → Option Bytes)
    → (Bytes → Bytes → Bytes)
    → Option Bytes
    → Bytes
    → BlocklessConfig
    → Type 0
Runs path_file_name join entry input c =
    (c.version ≡ version1)
    × (entry_module path_file_name join c ≡ path_file_name input)
    × (c.entry ≡ or_start entry)

entry_module-version1 :
    (path_file_name : Bytes → Option Bytes) (v : Version) (o : Option BlocklessModule)
    (entry : Bytes) (m : BlocklessModule)
    → v ≡ version1
    → o ≡ some m
    → (elim v [
      | version0 ↦ path_file_name entry
      | version1 ↦ elim o [ none ↦ none | some m ↦ path_file_name m.file ]
    ])
      ≡ path_file_name m.file
entry_module-version1 path_file_name v o entry m new found = rw (new, found) refl

add_modules-Runs :
    (path_file_name : Bytes → Option Bytes) (join : Bytes → Bytes → Bytes) (entry : Option Bytes)
    (ms : List BlocklessModule) (input : Bytes) (c : BlocklessConfig)
    → AreLibraries ms
    → ms ≢ []
    → Runs path_file_name join entry input (add_modules entry ms input c)
unfolding add_modules reset_modules_model_entry entry_module entry_module_of
add_modules-Runs path_file_name join entry [] input c h some_module = absurd (some_module refl)
add_modules-Runs path_file_name join none (m ∷ ms) input c h some_module = (
  refl,
  entry_module-version1 path_file_name version1 _ (codes "_start") (entry_module_of input) refl
      (find_entry-last (m ∷ ms) input h),
  refl,
)
add_modules-Runs path_file_name join (some e) (m ∷ ms) input c h some_module = (
  refl,
  entry_module-version1 path_file_name version1 _ e (entry_module_of input) refl
      (find_entry-last (m ∷ ms) input h),
  refl,
)

done-bind :
    {A B : Type 0} (o : Outcome A) (f : A → B) (r : B)
    → (o >>= λ a. done (f a)) ≡ done r
    → (a : A) × (r ≡ f a)
done-bind (done a) f r h = (a, ap (λ x. elim x [ done y ↦ y | _ ↦ r ]) (sym h))
done-bind refused f r h = absurd (cc)
done-bind panics f r h = absurd (cc)
done-bind exits f r h = absurd (cc)

-- Where the command line names modules, all of them libraries, a run executes the input as its
-- entry module, from the start function that `--entry` names or else from `_start`, whatever the
-- configuration file says of modules, entry and version.
pub into_config-modules :
    (exists : Bytes → Bool) (from_path_iter : Bytes → Option (List (Option (Bytes × Bytes))))
    (path_file_name : Bytes → Option Bytes) (join : Bytes → Bytes → Bytes) (opts : CliCommandOpts)
    (s r : Started)
    → AreLibraries opts.modules
    → opts.modules ≢ []
    → into_config exists from_path_iter opts s ≡ done r
    → Runs path_file_name join opts.entry opts.input r.config
unfolding into_config apply_opts entry_module
into_config-modules exists from_path_iter path_file_name join opts s r libraries named h =
    let (envs, made) =
      done-bind (load_environment_vars exists from_path_iter opts) (λ envs. apply_opts opts envs s)
        r h in
    subst (λ (x : Started). Runs path_file_name join opts.entry opts.input x.config) (sym made)
      (add_modules-Runs path_file_name join opts.entry opts.modules opts.input _ libraries named)
