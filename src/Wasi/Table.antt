-- ===== src/Wasi/Table.antt =====
-- crates/wasi-common/src/table.rs: the table of handles. A resource is of any type: a caller's
-- `downcast` says which type it wants. The lock is held for the whole of each operation, so an
-- operation is a function of the inner state.
pub mod Push
pub mod Access
use mathlib.Core.Option
use bls_runtime.Prelude.{
  ℕ, zero, suc, ◌+◌, ◌-◌, ◌%◌, Bool, true, false, Option, none, some, [], ◌==◌, if◌then◌else◌,
  length, u32_max, u32_mod,
}
use bls_runtime.Prelude.Assoc.{Assoc, nat_eq, lookup, insert, remove, has_key}
use bls_runtime.Wasi.Errno.{Error, errno, trap, badf, Result, ok, err}

-- An `Arc` with the number of references to it, the table's included.
pub record Arc {ℓ} (A : Type ℓ) : Type ℓ where
  pub value : A
  pub strong : ℕ

pub record Inner {ℓ} (A : Type ℓ) : Type ℓ where
  pub map : Assoc ℕ (Arc A)
  pub next_key : ℕ

module _ {ℓ} {A : Type ℓ} where
  -- 0, 1 and 2 are reserved for stdio.
  abbrev pub new : Inner A
  new = record { map = []; next_key = 3 }

  unfoldable pub insert_at : ℕ → Arc A → Inner A → Inner A
  insert_at key a t = record t { map = insert key a t.map }

  abbrev pub advanced : Inner A → Inner A
  advanced t = record t { next_key = (t.next_key + 1) % u32_mod }

  -- The loop of `push`, with fuel; `none` means that the fuel ran out.
  unfoldable pub push_loop : ℕ → Arc A → Inner A → Option (ℕ × Inner A)
  push_loop zero a t = none
  push_loop (suc fuel) a t =
      let rest = push_loop fuel a (advanced t) in
      if has_key t.next_key t.map
      then rest
      else some (t.next_key, insert_at t.next_key a (advanced t))

  -- One round more than there are entries.
  unfoldable pub push : Arc A → Inner A → Option (Result ℕ × Inner A)
  unfolding push_loop insert_at
  push a t =
      if length t.map == u32_max
      then some (err (trap "table has no free keys"), t)
      else Option.map (λ (k, t'). (ok k, t')) (push_loop (length t.map + 1) a t)

  unfoldable pub contains_key : ℕ → Inner A → Bool
  contains_key key t = has_key key t.map

  -- `is::<T>()`
  unfoldable pub is {κ} : {T : Type κ} → (A → Option T) → ℕ → Inner A → Bool
  is downcast key t = elim (lookup key t.map) [
    | none ↦ false
    | some r ↦ elim (downcast r.value) [ none ↦ false | some x ↦ true ]
  ]

  abbrev pub with_strong : Arc A → ℕ → Arc A
  with_strong r n = record r { strong = n }

  -- `get` clones the `Arc`; a clone of another type is dropped again.
  unfoldable pub get {κ} : {T : Type κ} → (A → Option T) → ℕ → Inner A → Result T × Inner A
  get downcast key t = elim (lookup key t.map) [
    | none ↦ (err (errno badf), t)
    | some r ↦ elim (downcast r.value) [
      | none ↦ (err (errno badf), t)
      | some x ↦ (ok x, record t { map = insert key (with_strong r (r.strong + 1)) t.map })
    ]
  ]

  -- The caller drops the reference that `get` returned.
  unfoldable pub drop_ref : ℕ → Inner A → Inner A
  drop_ref key t = elim (lookup key t.map) [
    | none ↦ t
    | some r ↦ record t { map = insert key (with_strong r (r.strong - 1)) t.map }
  ]

  -- `Arc::get_mut` gives a reference only where the table holds the one reference.
  unfoldable pub get_mut {κ} : {T : Type κ} → (A → Option T) → ℕ → Inner A → Result T
  get_mut downcast key t = elim (lookup key t.map) [
    | none ↦ err (errno badf)
    | some r ↦
        if r.strong == 1
        then (elim (downcast r.value) [ none ↦ err (errno badf) | some x ↦ ok x ])
        else err (errno badf)
  ]

  -- The outer `none` is the panic of `downcast().unwrap()` at an entry of another type.
  unfoldable pub delete {κ} :
      {T : Type κ} → (A → Option T) → ℕ → Inner A → Option (Option T × Inner A)
  delete downcast key t =
      let t' : Inner A = record t { map = remove key t.map } in
      elim (lookup key t.map) [
        | none ↦ some (none, t')
        | some r ↦ elim (downcast r.value) [ none ↦ none | some x ↦ some (some x, t') ]
      ]

  -- What stands at `from` moves to `to`, over what stood there.
  unfoldable pub renumber : ℕ → ℕ → Inner A → Result (Unit {0}) × Inner A
  renumber from to t =
      let m = remove from t.map in
      elim (lookup from t.map) [
        | none ↦ (err (errno badf), record t { map = m })
        | some r ↦ (ok tt, record t { map = insert to r m })
      ]
