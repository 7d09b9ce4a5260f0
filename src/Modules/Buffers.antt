-- ===== src/Modules/Buffers.antt =====
-- What a copy between buffers leaves to be read.
use mathlib.Core.Option.{some-injective}
use bls_runtime.Prelude.{
  ℕ, zero, suc, ◌+◌, ◌≤◌, ◌≡◌, refl, sym, ap, ◌∙◌, true, some, [], ◌∷◌, ◌++◌, Bytes, arith, leb,
  ◌==◌, length, take, drop, length-append, length-take-le, length-drop, drop-length, take-length,
  append_assoc, Bool-cases, Option-cases, inl, inr,
}
use bls_runtime.Modules.{
  Side, Machine, MemBuf, min, read_range, write_range, copy_to_slice, copy_from_slice, copy_from,
}

read_range-append :
    (a from b : Bytes) → read_range (a ++ from ++ b) (length a) (length from) ≡ some from
unfolding read_range
read_range-append a from b =
    let fits : leb (length a + length from) (length (a ++ from ++ b)) ≡ true =
      ground (arith, length-append (a ++ from) b, length-append a from) in
    rw (fits, append_assoc a from b, drop-length a (from ++ b), take-length from b) refl

-- A range that was written reads as what was written, in a memory of the same length.
read_range-write_range :
    (m : Bytes) (start : ℕ) (from d : Bytes)
    → write_range m start from ≡ some d
    → read_range d start (length from) ≡ some from
unfolding read_range write_range
read_range-write_range m start from d h = elim (Bool-cases (leb (start + length from) (length m))) [
  | inr out ↦ absurd (cc (rw (out, write_range) at h))
  | inl fits ↦
      let head = take start m in
      let tail = drop (start + length from) m in
      let n : length head ≡ start = length-take-le start m (ground arith) in
      let e : head ++ from ++ tail ≡ d = some-injective _ _ (rw (fits, write_range) at h) in
      ap (λ x. read_range x start (length from)) (sym e)
      ∙ ap (λ k. read_range (head ++ from ++ tail) k (length from)) (sym n)
      ∙ read_range-append head from tail
]

length-read_range :
    (m : Bytes) (start n : ℕ) (from : Bytes) → read_range m start n ≡ some from → length from ≡ n
unfolding read_range
length-read_range m start n from h = elim (Bool-cases (leb (start + n) (length m))) [
  | inr out ↦ absurd (cc (rw (out, read_range) at h))
  | inl fits ↦
      let e : take n (drop start m) ≡ from = some-injective _ _ (rw (fits, read_range) at h) in
      rw (← e) (length-take-le n (drop start m) (ground (arith, length-drop start m)))
]

take-all : (xs : Bytes) (n : ℕ) → length xs ≤ n → take n xs ≡ xs
take-all [] zero h = refl
take-all [] (suc n) h = refl
take-all (x ∷ xs) zero h = absurd (omega arith)
take-all (x ∷ xs) (suc n) h = ap (◌∷◌ x) (take-all xs n (omega arith))

module _ (m : Machine) where
  open m use {State, data_of, set_data}

  copy_from_slice-read_range :
      ((side : Side) (d : Bytes) (s : State) → data_of side (set_data side d s) ≡ d)
      → (b : MemBuf) (from : Bytes) (s s' : State) → length from ≡ b.buf_len
      → copy_from_slice m b from s ≡ some s'
      → read_range (data_of b.mem s') b.buf b.buf_len ≡ some from
  unfolding copy_from_slice
  copy_from_slice-read_range set_get b from s s' n h =
      let whole : take (min b.buf_len (length from)) from ≡ from = take-all from _ (ground arith) in
      elim (Option-cases (write_range (data_of b.mem s) b.buf from)) [
        | inl out ↦ absurd (cc (rw (whole, out, copy_from_slice) at h))
        | inr (d, wrote) ↦
            let there : set_data b.mem d s ≡ s' =
              some-injective _ _ (rw (whole, wrote, copy_from_slice) at h) in
            rw (← there, set_get, ← n) (read_range-write_range (data_of b.mem s) b.buf from d wrote)
      ]

  -- Where a memory reads as it was set, a result that is copied to a buffer of the same length
  -- reads there as it did in the buffer of the module that was called, also where the two
  -- memories are one and the buffers overlap.
  pub copy_from-delivers :
      ((side : Side) (d : Bytes) (s : State) → data_of side (set_data side d s) ≡ d)
      → (b other : MemBuf) (s s' : State) → b.buf_len ≡ other.buf_len
      → copy_from m b other s ≡ some s'
      → read_range (data_of b.mem s') b.buf b.buf_len
        ≡ read_range (data_of other.mem s) other.buf other.buf_len
  unfolding copy_from copy_to_slice
  copy_from-delivers set_get b other s s' same h =
      let n : min other.buf_len (min b.buf_len other.buf_len) ≡ other.buf_len = ground arith in
      elim (Option-cases (read_range (data_of other.mem s) other.buf other.buf_len)) [
        | inl out ↦ absurd (cc (rw (n, out, copy_from, copy_to_slice) at h))
        | inr (temp, read) ↦
            let k : length temp ≡ other.buf_len =
              length-read_range _ other.buf other.buf_len temp read in
            let exact : (length temp == min b.buf_len other.buf_len) ≡ true = ground arith in
            copy_from_slice-read_range set_get b temp s s' (omega arith)
              (rw (n, read, exact, copy_from, copy_to_slice) at h)
            ∙ sym read
      ]
