-- ===== src/Runner/Builder.antt =====
-- What `preview1_builder` gives to the guest.
use mathlib.Core.Option.{some-injective}
use bls_runtime.Prelude.{
  ℕ, zero, suc, ◌+◌, ◌≤◌, ◌<◌, ◌≡◌, refl, sym, ap, ◌∙◌, true, Option, none, some, List, [], ◌∷◌,
  ◌++◌, Bytes, if◌then◌else◌, map, length, length-append, get_elem?, All, arith, u32_max,
  Bool-cases, Option-cases, inl, inr,
}
use bls_runtime.Prelude.Assoc.{nat_eq, lookup}
use bls_runtime.Wasi.StringArray
use bls_runtime.Wasi.StringArray.{StringArray, pushed, total}
use bls_runtime.Wasi.StringArray.Bounds.{push_all, push_all_iff}
use bls_runtime.Config.{BlocklessConfig, entry_module}
use bls_runtime.Runner.{
  dir, socket, Host, fresh, new_table, preview1_set_stdio, Building, preopened_dir, map_dirs,
  map_root, bind_listens, WasiCtx, env_text, accepted, preview1_builder,
}
use bls_runtime.Runner.Stdio.{new_table-IsStdio, preview1_set_stdio-IsStdio, IsStdio-IsFresh}
use bls_runtime.Runner.Preopens.{
  Opens, opened, opened_all, map_dirs-opened, opened_all-max_fd, opened_all-below,
  opened_all-lookup,
}
use bls_runtime.Runner.Listeners.{unasked, unasked_binds, unasked_listeners, bind_listens_keeps}

abbrev with_stdio : Host → BlocklessConfig → Building
with_stdio host c = record { table = preview1_set_stdio host c new_table; max_fd = 3 }

-- The root as a directory that the guest sees, where it opens.
unfoldable pub roots : Host → Option Bytes → List (Bytes × Bytes)
roots host none = []
roots host (some root) = if host.open_dir root then (root, b'/' ∷ []) ∷ [] else []

roots-Opens : (host : Host) (root : Option Bytes) → All (Opens host) (roots host root)
unfolding roots
roots-Opens host none = tt
roots-Opens host (some root) = elim (Bool-cases (host.open_dir root)) [
  | inl opens ↦ rw (opens, roots) (opens, tt)
  | inr shut ↦ rw (shut, roots) tt
]

map_root-map_dirs :
    (host : Host) (root : Option Bytes) (b : Building)
    → map_root host root b ≡ map_dirs host (roots host root) b
unfolding map_root map_dirs roots
map_root-map_dirs host none b = refl
map_root-map_dirs host (some root) b = elim (Bool-cases (host.open_dir root)) [
  | inr shut ↦ rw (shut, map_root, roots, map_dirs) refl
  | inl opens ↦ elim (Option-cases (preopened_dir root (b'/' ∷ []) b)) [
    | inl failed ↦ rw (opens, failed, map_root, roots, map_dirs) (rw opens refl)
    | inr (b', done) ↦ rw (opens, done, map_root, roots, map_dirs) (rw opens refl)
  ]
]

opened_all-append :
    (ds es : List (Bytes × Bytes)) (b : Building)
    → opened_all (ds ++ es) b ≡ opened_all es (opened_all ds b)
opened_all-append [] es b = refl
opened_all-append (d ∷ ds) es b = opened_all-append ds es (opened d b)

-- Everything that the guest sees as a directory, in the order of its handles.
abbrev pub preopens : Host → BlocklessConfig → List (Bytes × Bytes)
preopens host c = c.dirs ++ roots host c.fs_root_path

mapped :
    (host : Host) (c : BlocklessConfig)
    → All (Opens host) c.dirs
    → 3 + length (preopens host c) < u32_max
    → (b : Building) × (map_dirs host c.dirs (with_stdio host c) ≡ some b)
      × (map_root host c.fs_root_path b ≡ some (opened_all (preopens host c) (with_stdio host c)))
mapped host c all room =
    let start = with_stdio host c in
    let ready = IsStdio-IsFresh _ (preview1_set_stdio-IsStdio host c new_table new_table-IsStdio) in
    let n = length-append c.dirs (roots host c.fs_root_path) in
    let (e, ready') = map_dirs-opened host c.dirs start all ready (omega arith) in
    let between = opened_all c.dirs start in
    let k : between.max_fd ≡ 3 + length c.dirs = opened_all-max_fd c.dirs start in
    let (e', _) =
      map_dirs-opened host (roots host c.fs_root_path) between (roots-Opens host c.fs_root_path)
        ready' (omega arith) in
    (
      between,
      e,
      map_root-map_dirs host c.fs_root_path between
          ∙ rw (opened_all-append c.dirs (roots host c.fs_root_path) start) e',
    )

-- Strings that fit in the sizes of the guest are accepted.
accepted-push_all :
    (es : List Bytes)
    → total es ≤ u32_max
    → accepted (push_all es StringArray.new) ≡ some (record { elems = es })
accepted-push_all es h = ap accepted ((push_all_iff es (record { elems = es })).1 (refl, h))

-- What the guest finds in a context: its arguments and environment, the standard streams of the
-- configuration, the directories from the handle 3 on, and behind them the listeners.
pub record IsServed (host : Host) (c : BlocklessConfig) (name : Bytes) (listens : List Bytes)
    (ctx : WasiCtx) : Type 0 where
  pub arguments : ctx.args.elems ≡ name ∷ c.stdin_args
  pub environment : ctx.env.elems ≡ map env_text c.envs
  pub streams :
      (j : ℕ)
      → j < 3
      → lookup j ctx.building.table.map ≡ lookup j (preview1_set_stdio host c new_table).map
  pub directories :
      (i : ℕ) (d : Bytes × Bytes)
      → get_elem? (preopens host c) i ≡ some d
      → lookup (3 + i) ctx.building.table.map ≡ some (fresh (dir d.0 d.1))
  pub listeners :
      (i : ℕ) (l : Bytes)
      → get_elem? listens i ≡ some l
      → lookup (3 + length (preopens host c) + i) ctx.building.table.map ≡ some (fresh (socket l))

get_elem?-lt : {A : Type 0} (xs : List A) (i : ℕ) (x : A) → get_elem? xs i ≡ some x → i < length xs
get_elem?-lt [] i x h = absurd (cc)
get_elem?-lt (y ∷ xs) zero x h = omega arith
get_elem?-lt (y ∷ xs) (suc i) x h = omega (arith, get_elem?-lt xs i x h)

same_end :
    (host : Host) (ls : List Bytes) (b last : Building) (i : ℕ) (l : Bytes)
    → bind_listens host (map unasked ls) b ≡ some last
    → (b' : Building) × (bind_listens host (map unasked ls) b ≡ some b')
      × (lookup (b.max_fd + i) b'.table.map ≡ some (fresh (socket l)))
    → lookup (b.max_fd + i) last.table.map ≡ some (fresh (socket l))
same_end host ls b last i l bound (b', e, there) =
    ap (λ (x : Building). lookup (b.max_fd + i) x.table.map) (some-injective _ _ (sym bound ∙ e))
    ∙ there

-- Where the entry module has a name, the strings fit, the directories open, the listeners ask
-- for no handle and bind, and the handles suffice, the build succeeds. The guest has the
-- arguments behind the name of the entry module and the environment as `var=value`; its handles
-- are the standard streams, from 3 on the directories with the root behind them where it opens,
-- and then the listeners.
pub preview1_builder-IsServed :
    (host : Host) (c : BlocklessConfig) (name : Bytes) (ls : List Bytes)
    → entry_module host.path_file_name host.join c ≡ some name
    → total (name ∷ c.stdin_args) ≤ u32_max
    → total (map env_text c.envs) ≤ u32_max
    → All (Opens host) c.dirs
    → c.tcp_listens ≡ map unasked ls
    → All (λ l. host.bind l ≡ true) ls
    → 3 + length (preopens host c) + length ls < u32_max
    → (ctx : WasiCtx) × (preview1_builder host c ≡ some ctx) × IsServed host c name ls ctx
unfolding preview1_builder
preview1_builder-IsServed host c name ls named args_fit env_fits all unnumbered binds room =
    let start = with_stdio host c in
    let (b, dirs_done, root_done) = mapped host c all (omega arith) in
    let full = opened_all (preopens host c) start in
    let n : full.max_fd ≡ 3 + length (preopens host c) =
      opened_all-max_fd (preopens host c) start in
    let (last, bound, _) = unasked_binds host ls full binds in
    let kept : (j : ℕ) → j < full.max_fd → lookup j last.table.map ≡ lookup j full.table.map =
      λ j lt. bind_listens_keeps host (map unasked ls) full last j bound lt in
    (
      record {
        args = record { elems = name ∷ c.stdin_args };
        env = record { elems = map env_text c.envs };
        building = last;
      },
      rw
          (
            named,
            accepted-push_all (name ∷ c.stdin_args) args_fit,
            accepted-push_all (map env_text c.envs) env_fits,
            dirs_done,
            root_done,
            unnumbered,
            bound,
            preview1_builder,
          )
          refl,
      record {
        arguments = refl;
        environment = refl;
        streams = λ j lt. kept j (omega arith) ∙ opened_all-below (preopens host c) start j lt;
        directories = λ i d there.
            kept (3 + i) (omega (arith, n, get_elem?-lt (preopens host c) i d there))
            ∙ opened_all-lookup (preopens host c) start i d there;
        listeners = λ i l there.
            rw n at (
              same_end host ls full last i l bound
                (unasked_listeners host ls full i l binds there));
      },
    )
