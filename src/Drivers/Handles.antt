-- ===== src/Drivers/Handles.antt =====
-- Tables of handles that a counter gives out: no key above the counter is in use.
use bls_runtime.Prelude.{
  ℕ, ◌≤◌, ◌<◌, ◌≡◌, ap, ◌∙◌, false, none, some, ◌==◌, if◌then◌else◌, arith, nat_same,
}
use bls_runtime.Prelude.Assoc.{Assoc, lookup, insert, remove, lookup-insert, lookup-remove, nat_eq}

module _ {V : Type 0} where
  abbrev pub Below : ℕ → Assoc ℕ V → Type 0
  Below n m = (j : ℕ) → n < j → lookup j m ≡ none

  pub insert-other :
      (k j : ℕ) (v : V) (m : Assoc ℕ V) → (k == j) ≡ false → lookup j (insert k v m) ≡ lookup j m
  insert-other k j v m differs =
      lookup-insert k j v m ∙ ap (λ b. if b then some v else lookup j m) differs

  pub insert-same : (k : ℕ) (v : V) (m : Assoc ℕ V) → lookup k (insert k v m) ≡ some v
  insert-same k v m =
      lookup-insert k k v m ∙ ap (λ b. if b then some v else lookup k m) (nat_same k)

  pub insert-Below : (n k : ℕ) (v : V) (m : Assoc ℕ V) → k ≤ n → Below n m → Below n (insert k v m)
  insert-Below n k v m le below j h = insert-other k j v m (ground (arith, le, h)) ∙ below j h

  pub remove-Below : (n k : ℕ) (m : Assoc ℕ V) → Below n m → Below n (remove k m)
  remove-Below n k m below j h = lookup-remove k j m ∙ emptied
    where
      emptied : (if k == j then none else lookup j m) ≡ none
      emptied = ground (arith, below j h)

  pub Below-le : (n k : ℕ) (m : Assoc ℕ V) → n ≤ k → Below n m → Below k m
  Below-le n k m le below j h = below j (omega (arith, le, h))

  -- A key that is in use is not above the counter.
  pub Below-used : (n k : ℕ) (v : V) (m : Assoc ℕ V) → Below n m → lookup k m ≡ some v → k ≤ n
  Below-used n k v m below h = ground (arith, below k, h)
