-- ===== src/Runner/Preopens.antt =====
-- The handles of the directories of `preview1_builder`.
use mathlib.Core.Option.{some-injective}
use bls_runtime.Prelude.{
  ℕ, zero, suc, ◌+◌, ◌%◌, ◌≤◌, ◌<◌, ◌≡◌, refl, ◌∙◌, true, false, some, List, [], ◌∷◌, Bytes, ◌==◌,
  nat_same, length, get_elem?, All, arith, u32_max, u32_mod,
}
use bls_runtime.Prelude.Assoc.{
  nat_eq, Assoc, lookup, insert, has_key, lookup-insert, has_key-insert,
}
use bls_runtime.Wasi.Errno.{ok}
use bls_runtime.Wasi.Table.{Arc, Inner, insert_at, push, push_loop, advanced}
use bls_runtime.Runner.{Resource, dir, Host, fresh, Building, preopened_dir, map_dirs}

-- The state between two preopens: the counter of the table is the first free handle, no handle
-- from there on is taken, and there are no more entries than handles below it.
pub record IsFresh (b : Building) : Type 0 where
  pub counter : b.table.next_key ≡ b.max_fd
  pub entries : length b.table.map ≤ b.max_fd
  pub free : (j : ℕ) → b.max_fd ≤ j → has_key j b.table.map ≡ false

length-insert :
    (k : ℕ) (a : Arc Resource) (m : Assoc ℕ (Arc Resource)) → length (insert k a m) ≤ length m + 1
unfolding insert
length-insert k a [] = omega arith
length-insert k a ((j, w) ∷ m) = ground (arith, length-insert k a m)

abbrev pub opened : Bytes × Bytes → Building → Building
unfolding insert_at
opened (from, guest) b = record {
  table = insert_at b.max_fd (fresh (dir from guest)) (record b.table { next_key = b.max_fd + 1 });
  max_fd = b.max_fd + 1;
}

push_loop_free :
    (n : ℕ) (a : Arc Resource) (t : Inner Resource)
    → has_key t.next_key t.map ≡ false
    → push_loop (n + 1) a t ≡ some (t.next_key, insert_at t.next_key a (advanced t))
unfolding push_loop
push_loop_free n a t free = let e : n + 1 ≡ suc n = omega arith in rw (e, free, push_loop) refl

push_free :
    (a : Arc Resource) (t : Inner Resource)
    → length t.map < u32_max
    → has_key t.next_key t.map ≡ false
    → push a t ≡ some (ok t.next_key, insert_at t.next_key a (advanced t))
unfolding push
push_free a t room free =
    let not_full : (length t.map == u32_max) ≡ false = ground arith in
    rw (not_full, push_loop_free (length t.map) a t free) refl

preopened_dir-IsFresh :
    (d : Bytes × Bytes) (b : Building)
    → IsFresh b
    → b.max_fd + 1 < u32_max
    → (preopened_dir d.0 d.1 b ≡ some (opened d b)) × IsFresh (opened d b)
unfolding preopened_dir insert_at
preopened_dir-IsFresh d b inv lt =
    let counter : b.table.next_key ≡ b.max_fd = inv.counter in
    let next : (b.max_fd + 1) % u32_mod ≡ b.max_fd + 1 = omega arith in
    let pushed =
      push_free (fresh (dir d.0 d.1)) b.table (omega (arith, inv.entries))
        (rw counter (inv.free b.max_fd (omega arith))) in
    (
      rw (pushed, preopened_dir, counter, next) refl,
      record {
        counter = refl;
        entries =
            omega (arith, inv.entries, length-insert b.max_fd (fresh (dir d.0 d.1)) b.table.map);
        free = λ j ge.
            has_key-insert b.max_fd j (fresh (dir d.0 d.1)) b.table.map
            ∙ ground (arith, inv.free j);
      },
    )

abbrev pub Opens : Host → Bytes × Bytes → Type 0
Opens host (from, guest) = host.open_dir from ≡ true

abbrev pub opened_all : List (Bytes × Bytes) → Building → Building
opened_all [] b = b
opened_all (d ∷ ds) b = opened_all ds (opened d b)

pub map_dirs-opened :
    (host : Host) (ds : List (Bytes × Bytes)) (b : Building)
    → All (Opens host) ds
    → IsFresh b
    → b.max_fd + length ds < u32_max
    → (map_dirs host ds b ≡ some (opened_all ds b)) × IsFresh (opened_all ds b)
unfolding map_dirs opened
map_dirs-opened host [] b all inv lt = (refl, inv)
map_dirs-opened host ((from, guest) ∷ ds) b (opens, all) inv lt =
    let (e, inv') = preopened_dir-IsFresh (from, guest) b inv (omega arith) in
    let (rest, last) = map_dirs-opened host ds (opened (from, guest) b) all inv' (omega arith) in
    (rw (opens, e) rest, last)

pub opened_all-max_fd :
    (ds : List (Bytes × Bytes)) (b : Building) → (opened_all ds b).max_fd ≡ b.max_fd + length ds
unfolding opened
opened_all-max_fd [] b = omega arith
opened_all-max_fd (d ∷ ds) b = omega (arith, opened_all-max_fd ds (opened d b))

pub opened_all-below :
    (ds : List (Bytes × Bytes)) (b : Building) (j : ℕ)
    → j < b.max_fd
    → lookup j (opened_all ds b).table.map ≡ lookup j b.table.map
unfolding opened
opened_all-below [] b j lt = refl
opened_all-below (d ∷ ds) b j lt =
    let other : (b.max_fd == j) ≡ false = ground arith in
    opened_all-below ds (opened d b) j (omega arith)
    ∙ lookup-insert b.max_fd j (fresh (dir d.0 d.1)) b.table.map
    ∙ rw other refl

pub opened_all-lookup :
    (ds : List (Bytes × Bytes)) (b : Building) (i : ℕ) (d : Bytes × Bytes)
    → get_elem? ds i ≡ some d
    → lookup (b.max_fd + i) (opened_all ds b).table.map ≡ some (fresh (dir d.0 d.1))
unfolding opened
opened_all-lookup [] b i d h = cc
opened_all-lookup (d' ∷ ds) b zero d h =
    let same : d' ≡ d = some-injective _ _ h in
    let add_zero : b.max_fd + 0 ≡ b.max_fd = omega arith in
    rw add_zero (
      opened_all-below ds (opened d' b) b.max_fd (omega arith)
      ∙ lookup-insert b.max_fd b.max_fd (fresh (dir d'.0 d'.1)) b.table.map
      ∙ rw (nat_same b.max_fd, same) refl)
opened_all-lookup (d' ∷ ds) b (suc i) d h =
    let n : b.max_fd + suc i ≡ b.max_fd + 1 + i = omega arith in
    rw n (opened_all-lookup ds (opened d' b) i d h)

-- From a table whose counter is the first free handle, with no handle taken from there on: where
-- each host directory opens and the handles suffice, every preopen succeeds: the directory
-- at place `i` of the configuration gets the handle `i` places after the first free one, the
-- handles before that stay as they were, and the first free handle moves by the number of
-- directories, so that it is again the one that the table gives next.
pub preopens_in_order :
    (host : Host) (ds : List (Bytes × Bytes)) (b : Building)
    → All (Opens host) ds
    → IsFresh b
    → b.max_fd + length ds < u32_max
    → (b' : Building) × (map_dirs host ds b ≡ some b')
      × IsFresh b'
      × (b'.max_fd ≡ b.max_fd + length ds)
      × ((j : ℕ) → j < b.max_fd → lookup j b'.table.map ≡ lookup j b.table.map)
      × ((i : ℕ) (d : Bytes × Bytes)
          → get_elem? ds i ≡ some d
          → lookup (b.max_fd + i) b'.table.map ≡ some (fresh (dir d.0 d.1)))
preopens_in_order host ds b all inv lt =
    let (e, inv') = map_dirs-opened host ds b all inv lt in
    (
      opened_all ds b,
      e,
      inv',
      opened_all-max_fd ds b,
      opened_all-below ds b,
      opened_all-lookup ds b,
    )
