-- ===== src/Multiaddr/Slices.antt =====
-- Slices of an address: one byte more, and the slice that stands between two known parts.
use bls_runtime.Prelude.{
  ℕ, zero, suc, ◌+◌, ◌-◌, ◌≤◌, ◌≡◌, refl, ap, [], ◌∷◌, ◌++◌, Bytes, arith, length, take,
  drop-length, take-length,
}
use bls_runtime.Multiaddr.{slice}

take-length_add_one :
    (pre : Bytes) (c : ℕ) (rest : Bytes) → take (length pre + 1) (pre ++ c ∷ rest) ≡ pre ++ c ∷ []
take-length_add_one [] c rest = refl
take-length_add_one (x ∷ xs) c rest =
    let e : length (x ∷ xs) + 1 ≡ suc (length xs + 1) = omega arith in
    rw e (ap (◌∷◌ x) (take-length_add_one xs c rest))

-- The bytes of `mid` are the slice from its first offset to its last.
pub slice_middle :
    (pre mid rest : Bytes) (b e : ℕ)
    → b ≡ length pre
    → e ≡ length pre + length mid
    → slice (pre ++ (mid ++ rest)) b e ≡ mid
slice_middle pre mid rest b e p q =
    let d : e - b ≡ length mid = omega arith in rw (d, p, drop-length) (take-length mid rest)

-- A slice that ends before a byte, and the slice that ends behind it.
pub slice_add_one :
    (pre : Bytes) (c : ℕ) (rest : Bytes) (b : ℕ)
    → b ≤ length pre
    → slice (pre ++ c ∷ rest) b (length pre + 1) ≡ slice (pre ++ c ∷ rest) b (length pre) ++ c ∷ []
slice_add_one pre c rest zero h =
    let d : length pre + 1 - 0 ≡ length pre + 1 = omega arith in
    let d' : length pre - 0 ≡ length pre = omega arith in
    rw (d, d', take-length) (take-length_add_one pre c rest)
slice_add_one [] c rest (suc b) h = absurd (omega arith)
slice_add_one (x ∷ xs) c rest (suc b) h =
    let d : length (x ∷ xs) + 1 - suc b ≡ length xs + 1 - b = omega arith in
    let d' : length (x ∷ xs) - suc b ≡ length xs - b = omega arith in
    rw (d, d') (slice_add_one xs c rest b (omega arith))
