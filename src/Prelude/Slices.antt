-- ===== src/Prelude/Slices.antt =====
-- Cuts of a list at the smaller of a number and its length.
use Prim.Native.Nat.{ℕ, ◌≤◌}
use mathlib.Core.Path.{◌≡◌, refl, ap, sym, ◌∙◌}
use mathlib.Core.Logic.{inl, inr}
use mathlib.Core.List.{List}
use native.Mathlib.Omega.{arith}
use bls_runtime.Prelude.Tests.{leb, min, Bool-cases}
use bls_runtime.Prelude.Lists.{length, take, drop, take-all, drop-all}

module _ {ℓ} {A : Type ℓ} (n : ℕ) (xs : List A) where
  pub drop-min : drop (min n (length xs)) xs ≡ drop n xs
  drop-min = elim (Bool-cases (leb n (length xs))) [
    | inl short ↦ rw short refl
    | inr long ↦
        let le : length xs ≤ n = ground (arith, long) in
        rw long (drop-all (length xs) xs (omega arith) ∙ sym (drop-all n xs le))
  ]

  pub take-min : take (min n (length xs)) xs ≡ take n xs
  take-min = elim (Bool-cases (leb n (length xs))) [
    | inl short ↦ rw short refl
    | inr long ↦
        let le : length xs ≤ n = ground (arith, long) in
        rw long (take-all (length xs) xs (omega arith) ∙ sym (take-all n xs le))
  ]

  min-swap : min (length xs) n ≡ min n (length xs)
  min-swap = ground arith

  pub drop-min_left : drop (min (length xs) n) xs ≡ drop n xs
  drop-min_left = ap (λ k. drop k xs) min-swap ∙ drop-min

  pub take-min_left : take (min (length xs) n) xs ≡ take n xs
  take-min_left = ap (λ k. take k xs) min-swap ∙ take-min
