-- ===== src/Runner.antt =====
-- blockless/src/lib.rs, `preview1_builder`, with the context builder that it drives
-- (crates/wasi-common/src/sync/mod.rs and ctx.rs): from a configuration to the table of handles,
-- the arguments and the environment of the guest. What the host answers is the record `Host`.
pub mod Run
pub mod Listeners
pub mod Preopens
pub mod Stdio
pub mod Builder
use bls_runtime.Prelude.{
  ℕ, zero, suc, ◌+◌, ◌<◌, Bool, true, false, Option, none, some, List, [], ◌∷◌, ◌++◌, Bytes, ltb,
  if◌then◌else◌, map,
}
use bls_runtime.Wasi.Errno.{Result, ok, err}
use bls_runtime.Wasi.Table
use bls_runtime.Wasi.Table.{Arc, Inner, insert_at}
use bls_runtime.Wasi.StringArray
use bls_runtime.Wasi.StringArray.{StringArray, pushed, refused}
use bls_runtime.Wasi.StringArray.Bounds.{push_all}
use bls_runtime.Config.{
  BlocklessConfig, Stdin, inherit, fixed, Stdout, null, inherit_output, file_name, entry_module,
}

-- What a handle of the guest stands for.
pub data Resource : Type 0 where
  default_pipe : ℕ → Resource
  inherited : ℕ → Resource
  output_file : Bytes → Resource
  dir : Bytes → Bytes → Resource
  socket : Bytes → Resource

-- The file system and the network: which paths open, which addresses bind, and the joins of paths.
pub record Host : Type 0 where
  pub open_dir : Bytes → Bool
  pub open_append : Bytes → Bool
  pub bind : Bytes → Bool
  pub join : Bytes → Bytes → Bytes
  pub path_file_name : Bytes → Option Bytes

abbrev pub fresh : Resource → Arc Resource
fresh r = record { value = r; strong = 1 }

-- `WasiCtx::new`: empty pipes on 0, 1 and 2, and nothing else.
unfoldable pub new_table : Inner Resource
unfolding insert_at
new_table =
    insert_at 2 (fresh (default_pipe 2))
      (insert_at 1 (fresh (default_pipe 1)) (insert_at 0 (fresh (default_pipe 0)) Table.new))

-- `process_output!` for one of the outputs: a file under the root, or what the process has.
unfoldable pub process_output : Host → Option Bytes → ℕ → Stdout → Inner Resource → Inner Resource
unfolding insert_at
process_output host root fd null t = t
process_output host root fd inherit_output t = insert_at fd (fresh (inherited fd)) t
process_output host none fd (file_name f) t = insert_at fd (fresh (inherited fd)) t
process_output host (some r) fd (file_name f) t =
    if host.open_append (host.join r f)
    then insert_at fd (fresh (output_file (host.join r f))) t
    else insert_at fd (fresh (inherited fd)) t

unfoldable pub process_input : Stdin → Inner Resource → Inner Resource
unfolding insert_at
process_input inherit t = insert_at 0 (fresh (inherited 0)) t
process_input (fixed s) t = t

unfoldable pub preview1_set_stdio : Host → BlocklessConfig → Inner Resource → Inner Resource
unfolding process_output process_input
preview1_set_stdio host c t = process_input c.stdio.stdin (
    process_output host c.fs_root_path 2 c.stdio.stderr
      (process_output host c.fs_root_path 1 c.stdio.stdout t))

-- The table that is built, with the first handle that no preopen has taken.
pub record Building : Type 0 where
  pub table : Inner Resource
  pub max_fd : ℕ

-- `preopened_dir`; every failure ends the build.
unfoldable pub preopened_dir : Bytes → Bytes → Building → Option Building
preopened_dir host guest b = elim (Table.push (fresh (dir host guest)) b.table) [
  | none ↦ none
  | some (r, t) ↦ elim r [
    | ok fd ↦ some (record { table = t; max_fd = b.max_fd + 1 })
    | err e ↦ none
  ]
]

unfoldable pub map_dirs : Host → List (Bytes × Bytes) → Building → Option Building
unfolding preopened_dir
map_dirs host [] b = some b
map_dirs host ((from, guest) ∷ ds) b =
    if host.open_dir from
    then (elim (preopened_dir from guest b) [ none ↦ none | some b' ↦ map_dirs host ds b' ])
    else none

-- A root that does not open is left out.
unfoldable pub map_root : Host → Option Bytes → Building → Option Building
unfolding preopened_dir
map_root host none b = some b
map_root host (some root) b =
    if host.open_dir root then preopened_dir root (b'/' ∷ []) b else some b

-- The handle of a listener, and what is the first free one behind it; `none` is the `bail!`.
unfoldable pub listen_fd : Option ℕ → ℕ → Option (ℕ × ℕ)
listen_fd (some fd) max_fd = if ltb fd max_fd then none else some (fd, max_fd)
listen_fd none max_fd = some (max_fd, max_fd + 1)

unfoldable pub bind_listens : Host → List (Bytes × Option ℕ) → Building → Option Building
unfolding listen_fd insert_at
bind_listens host [] b = some b
bind_listens host ((l, asked) ∷ ls) b = elim (listen_fd asked b.max_fd) [
  | none ↦ none
  | some (fd, max_fd) ↦ elim (host.bind l) [
    | false ↦ none
    | true ↦
        bind_listens host ls
          (record { table = insert_at fd (fresh (socket l)) b.table; max_fd = max_fd })
  ]
]

pub record WasiCtx : Type 0 where
  pub args : StringArray
  pub env : StringArray
  pub building : Building

-- `push_env`
abbrev pub env_text : Bytes × Bytes → Bytes
env_text (var, value) = var ++ (b'=' ∷ value)

abbrev pub and_then : {A B : Type 0} → Option A → (A → Option B) → Option B
and_then none f = none
and_then (some a) f = f a

abbrev pub accepted : StringArray.Pushed → Option StringArray
accepted (pushed s) = some s
accepted (refused e) = none

unfoldable pub preview1_builder : Host → BlocklessConfig → Option WasiCtx
unfolding map_dirs map_root bind_listens preview1_set_stdio new_table entry_module push_all
preview1_builder host c = and_then (entry_module host.path_file_name host.join c) λ name.
    and_then (accepted (push_all (name ∷ c.stdin_args) StringArray.new)) λ args.
      and_then (accepted (push_all (map env_text c.envs) StringArray.new)) λ env.
        and_then
          (map_dirs host c.dirs
            (record { table = preview1_set_stdio host c new_table; max_fd = 3 }))
          λ b. and_then (map_root host c.fs_root_path b) λ b'.
            and_then (bind_listens host c.tcp_listens b')
              λ b''. some (record { args = args; env = env; building = b'' })
