-- ===== src/Wasi/Table/Access.antt =====
-- Borrowing, moving and removing entries of the table.
use bls_runtime.Prelude.{
  ℕ, ◌+◌, ◌-◌, ◌≤◌, ◌≡◌, refl, ap, ◌∙◌, false, Option, none, some, arith, ◌==◌, nat_same,
  if◌then◌else◌, Bool-cases, inl, inr,
}
use bls_runtime.Prelude.Assoc.{nat_eq, lookup, insert, remove, lookup-insert, lookup-remove}
use bls_runtime.Wasi.Errno.{errno, badf, ok, err}
use bls_runtime.Wasi.Table.{Arc, Inner, get, get_mut, drop_ref, renumber, is, with_strong}

module _ {ℓ κ} {A : Type ℓ} {T : Type κ} (downcast : A → Option T) (key : ℕ) (t : Inner A) where
  -- A failed `get` reports a bad descriptor and changes nothing: the key is missing, or the entry
  -- has another type.
  pub get_fails : is downcast key t ≡ false → get downcast key t ≡ (err (errno badf), t)
  unfolding is get
  get_fails h = ground arith

module _ {ℓ κ} {A : Type ℓ} {T : Type κ} (downcast : A → Option T) (key : ℕ) (t : Inner A)
    (r : Arc A) (x : T) (there : lookup key t.map ≡ some r) (fits : downcast r.value ≡ some x) where
  held : Inner A
  held = record t { map = insert key (with_strong r (r.strong + 1)) t.map }

  get_held : get downcast key t ≡ (ok x, held)
  unfolding get held
  get_held = rw (there, get, fits) refl

  lookup-held : lookup key held.map ≡ some (with_strong r (r.strong + 1))
  unfolding held
  lookup-held = lookup-insert key key _ t.map ∙ ground arith

  lookup-drop_ref : lookup key (drop_ref key held).map ≡ some r
  unfolding drop_ref
  lookup-drop_ref =
      rw (lookup-held, drop_ref)
        (lookup-insert key key _ held.map ∙ rw (nat_same key) (ap some strong_back))
    where
      strong_back : with_strong r (r.strong + 1 - 1) ≡ r
      strong_back = let e : r.strong + 1 - 1 ≡ r.strong = omega arith in rw e refl

  -- A reference that `get` returned shuts out `get_mut` on the same key until it is dropped; then
  -- `get_mut` gives what it gave before.
  pub get_excludes_get_mut :
      1 ≤ r.strong
      → (t' : Inner A) × (get downcast key t ≡ (ok x, t'))
        × (get_mut downcast key t' ≡ err (errno badf))
        × (get_mut downcast key (drop_ref key t') ≡ get_mut downcast key t)
  unfolding get_mut
  get_excludes_get_mut counted = (
    held,
    get_held,
    rw (lookup-held, get_mut) (ground arith),
    rw (lookup-drop_ref, there, get_mut) refl,
  )

module _ {ℓ} {A : Type ℓ} (from to : ℕ) (t : Inner A) where
  -- `renumber` moves the entry at `from` to `to`, over what was there, and touches no other key.
  pub renumber_moves :
      (r : Arc A)
      → lookup from t.map ≡ some r
      → ((renumber from to t).0 ≡ ok tt)
        × ((j : ℕ)
            → lookup j (renumber from to t).1.map
              ≡ (if to == j then some r else if from == j then none else lookup j t.map))
  unfolding renumber
  renumber_moves r h = (
    rw (h, renumber) refl,
    λ j. rw (h, renumber) (lookup-insert to j r (remove from t.map) ∙ rw lookup-remove refl),
  )

  -- From a missing key it reports a bad descriptor, and every key reads as before.
  renumber_missing :
      lookup from t.map ≡ none
      → ((renumber from to t).0 ≡ err (errno badf))
        × ((j : ℕ) → lookup j (renumber from to t).1.map ≡ lookup j t.map)
  unfolding renumber
  renumber_missing h =
      (rw (h, renumber) refl, λ j. rw (h, renumber) (lookup-remove from j t.map ∙ same j))
    where
      same : (j : ℕ) → (if from == j then none else lookup j t.map) ≡ lookup j t.map
      same j = elim (Bool-cases (from == j)) [
        | inl e ↦ let k : from ≡ j = ground arith in rw (e, ← k, h) refl
        | inr e ↦ rw e refl
      ]
