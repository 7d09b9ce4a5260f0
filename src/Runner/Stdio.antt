-- ===== src/Runner/Stdio.antt =====
-- The standard handles of `preview1_builder`.
use bls_runtime.Prelude.{
  ℕ, zero, suc, ◌<◌, ◌≡◌, refl, ap, Option, none, some, [], ◌∷◌, Bytes, if_intro, arith,
}
use bls_runtime.Prelude.Assoc.{nat_eq, insert, has_key}
use bls_runtime.Wasi.Table.{Arc, Inner, insert_at}
use bls_runtime.Config.{
  BlocklessConfig, Stdin, inherit, fixed, Stdout, null, inherit_output, file_name,
}
use bls_runtime.Runner.{
  Resource, Host, new_table, process_output, process_input, preview1_set_stdio,
}
use bls_runtime.Runner.Preopens.{IsFresh}

-- The three standard handles, and nothing else.
abbrev pub stdio_table : Arc Resource → Arc Resource → Arc Resource → Inner Resource
stdio_table a b c = record { map = (0, a) ∷ (1, b) ∷ (2, c) ∷ []; next_key = 3 }

abbrev pub IsStdio : Inner Resource → Type 0
IsStdio t = (a : Arc Resource) × (b : Arc Resource) × (c : Arc Resource) × (t ≡ stdio_table a b c)

pub new_table-IsStdio : IsStdio new_table
unfolding new_table insert_at insert
new_table-IsStdio = (_, _, _, refl)

insert_at-IsStdio :
    (fd : ℕ) (r : Arc Resource) (t : Inner Resource)
    → fd < 3
    → IsStdio t
    → IsStdio (insert_at fd r t)
unfolding insert_at insert
insert_at-IsStdio zero r t h (a, b, c, e) = (r, b, c, ap (insert_at 0 r) e)
insert_at-IsStdio (suc zero) r t h (a, b, c, e) = (a, r, c, ap (insert_at 1 r) e)
insert_at-IsStdio (suc (suc zero)) r t h (a, b, c, e) = (a, b, r, ap (insert_at 2 r) e)
insert_at-IsStdio (suc (suc (suc fd))) r t h i = absurd (omega arith)

process_output-IsStdio :
    (host : Host) (root : Option Bytes) (fd : ℕ) (o : Stdout) (t : Inner Resource)
    → fd < 3
    → IsStdio t
    → IsStdio (process_output host root fd o t)
unfolding process_output
process_output-IsStdio host root fd null t h i = i
process_output-IsStdio host root fd inherit_output t h i = insert_at-IsStdio fd _ t h i
process_output-IsStdio host none fd (file_name f) t h i = insert_at-IsStdio fd _ t h i
process_output-IsStdio host (some r) fd (file_name f) t h i =
    if_intro IsStdio (host.open_append (host.join r f)) (λ _. insert_at-IsStdio fd _ t h i)
      (λ _. insert_at-IsStdio fd _ t h i)

process_input-IsStdio : (i : Stdin) (t : Inner Resource) → IsStdio t → IsStdio (process_input i t)
unfolding process_input
process_input-IsStdio inherit t i = insert_at-IsStdio 0 _ t (omega arith) i
process_input-IsStdio (fixed s) t i = i

pub preview1_set_stdio-IsStdio :
    (host : Host) (c : BlocklessConfig) (t : Inner Resource)
    → IsStdio t
    → IsStdio (preview1_set_stdio host c t)
unfolding preview1_set_stdio
preview1_set_stdio-IsStdio host c t i = process_input-IsStdio c.stdio.stdin _ (
    process_output-IsStdio host c.fs_root_path 2 c.stdio.stderr _ (omega arith)
      (process_output-IsStdio host c.fs_root_path 1 c.stdio.stdout t (omega arith) i))

pub IsStdio-IsFresh : (t : Inner Resource) → IsStdio t → IsFresh (record { table = t; max_fd = 3 })
unfolding has_key
IsStdio-IsFresh t (a, b, c, e) =
    rw e (record { counter = refl; entries = omega arith; free = λ j ge. ground arith })
