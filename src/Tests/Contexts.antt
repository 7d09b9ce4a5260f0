-- ===== src/Tests/Contexts.antt =====
-- The handles of a context that is being built.
use bls_runtime.Prelude.{
  ℕ, ◌+◌, ◌<◌, ◌≡◌, refl, true, Option, some, List, [], ◌∷◌, ◌++◌, Bytes, codes, length, map,
  get_elem?, arith,
}
use bls_runtime.Prelude.Assoc.{nat_eq, lookup, has_key, insert}
use bls_runtime.Wasi.Table.{insert_at}
use bls_runtime.Prelude.{u32_max}
use bls_runtime.Runner.{
  WasiCtx, preview1_builder, dir, socket, Host, fresh, new_table, Building, map_dirs, bind_listens,
}
use bls_runtime.Config
use bls_runtime.Config.{BlocklessConfig, entry_module}
use bls_runtime.Runner.Builder.{roots, preopens, IsServed, preview1_builder-IsServed}
use bls_runtime.Runner.Preopens.{IsFresh, preopens_in_order}
use bls_runtime.Runner.Listeners.{unasked}

-- A host where everything opens and binds.
abbrev open_host : Host
open_host = record {
  open_dir = λ p. true;
  open_append = λ p. true;
  bind = λ a. true;
  join = λ a b. a ++ (b'/' ∷ b);
  path_file_name = λ p. some p;
}

abbrev first : Building
first = record { table = new_table; max_fd = 3 }

first-IsFresh : IsFresh first
unfolding new_table insert_at insert has_key
first-IsFresh = record { counter = refl; entries = omega arith; free = λ j ge. ground arith }

abbrev two_dirs : List (Bytes × Bytes)
two_dirs = (codes "data", codes "/data") ∷ (codes "tmp", codes "/tmp") ∷ []

preopens_in_order_example :
    (b' : Building) × (map_dirs open_host two_dirs first ≡ some b')
    × IsFresh b'
    × (b'.max_fd ≡ first.max_fd + length two_dirs)
    × ((j : ℕ) → j < 3 → lookup j b'.table.map ≡ lookup j first.table.map)
    × ((i : ℕ) (d : Bytes × Bytes)
        → get_elem? two_dirs i ≡ some d
        → lookup (3 + i) b'.table.map ≡ some (fresh (dir d.0 d.1)))
preopens_in_order_example =
    preopens_in_order open_host two_dirs first (refl, (refl, tt)) first-IsFresh (omega arith)

abbrev addresses : List Bytes
addresses = codes "127.0.0.1:80" ∷ codes "127.0.0.1:81" ∷ []

abbrev asked_five : List (Bytes × Option ℕ)
asked_five = (codes "127.0.0.1:80", some 5) ∷ []

abbrev with_five : Building
with_five = record {
  table = insert_at 5 (fresh (socket (codes "127.0.0.1:80"))) new_table;
  max_fd = 3;
}

five_binds : bind_listens open_host asked_five first ≡ some with_five
unfolding bind_listens
five_binds = refl

-- A configuration with two directories, a root, and two listeners.
abbrev served : BlocklessConfig
served = record (Config.new (codes "app.wasm")) {
  dirs = two_dirs;
  fs_root_path = some (codes "root");
  tcp_listens = map unasked addresses;
  stdin_args = codes "-v" ∷ [];
  envs = (codes "HOME", codes "/") ∷ [];
}

served_named : entry_module open_host.path_file_name open_host.join served ≡ some (codes "app.wasm")
unfolding entry_module Config.new
served_named = refl

few_preopens : 3 + length (preopens open_host served) + length addresses < u32_max
unfolding roots
few_preopens = omega arith

preview1_builder-IsServed_example :
    (ctx : WasiCtx) × (preview1_builder open_host served ≡ some ctx)
    × IsServed open_host served (codes "app.wasm") addresses ctx
preview1_builder-IsServed_example =
    preview1_builder-IsServed open_host served (codes "app.wasm") addresses served_named
      (omega arith) (omega arith) (refl, (refl, tt)) refl (refl, (refl, tt)) few_preopens
