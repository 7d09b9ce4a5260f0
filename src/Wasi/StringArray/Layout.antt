-- ===== src/Wasi/StringArray/Layout.antt =====
-- What `write_to_guest` writes, and where.
use mathlib.Core.Path.{fun_ext}
use bls_runtime.Prelude.{
  ℕ, ◌+◌, ◌%◌, ◌≤◌, ◌≡◌, refl, ap, ◌∙◌, List, [], ◌∷◌, Bytes, arith, ltb, length, true, u32_max,
  u32_mod,
}
use bls_runtime.Wasi.Errno.{Result, ok}
use bls_runtime.Wasi.StringArray.{
  StringArray, total, Guest, ◌>>=◌, write_elem, write_loop, write_to_guest,
}
use bls_runtime.Wasi.StringArray.Bounds.{IsValid, sizes_exact}

module _ (g : Guest) where
  open g use {
    Memory, get_range, get, copy_from_slice, write_byte, write_head, get_range-some, get-some,
  }

  -- Each string is copied behind the one before it and its terminator, ends in a zero byte, and
  -- its head gets the offset of its first byte.
  pub layout : ℕ → ℕ → List Bytes → Memory → Result Memory
  layout i offset [] memory = ok memory
  layout i offset (e ∷ es) memory =
      let rest = λ (m : Memory). layout (i + 1) (offset + length e + 1) es m in
      (do
        copied ← copy_from_slice memory offset e
        ended ← write_byte copied (offset + length e) 0
        write_head ended i offset)
      >>= rest

  write_elem-layout :
      (size i cursor : ℕ) (e : Bytes) (memory : Memory)
      → cursor + length e + 1 ≤ size
      → size ≤ u32_max
      → write_elem g size i cursor e memory ≡ (do
        copied ← copy_from_slice memory cursor e
        ended ← write_byte copied (cursor + length e) 0
        write_head ended i cursor)
  unfolding write_elem
  write_elem-layout size i cursor e memory h small =
      let n : length e % u32_mod ≡ length e = omega arith in
      let c : (cursor + length e) % u32_mod ≡ cursor + length e = omega arith in
      simp (
        n,
        c,
        get_range-some size cursor (cursor + length e) (omega arith) (omega arith),
        get-some size (cursor + length e) (omega arith),
        get-some size cursor (omega arith),
      )

  write_loop-layout :
      (es : List Bytes) (size heads i cursor : ℕ) (memory : Memory)
      → cursor + total es ≡ size
      → i + length es ≡ heads
      → size ≤ u32_max
      → write_loop g size heads i cursor es memory ≡ layout i cursor es memory
  unfolding write_loop layout
  write_loop-layout [] size heads i cursor memory p q small = refl
  write_loop-layout (e ∷ es) size heads i cursor memory p q small =
      let test : ltb i heads ≡ true = ground arith in
      let next : (cursor + length e % u32_mod + 1) % u32_mod ≡ cursor + length e + 1 =
        omega arith in
      let rest = λ (m : Memory).
        write_loop-layout es size heads (i + 1) (cursor + length e + 1) m (omega arith)
          (omega arith) small in
      rw (test, next)
        (ap (λ f. write_elem g size i cursor e memory >>= f) (fun_ext rest)
          ∙ ap (λ r. r >>= layout (i + 1) (cursor + length e + 1) es)
              (write_elem-layout size i cursor e memory (omega arith) small))

  -- On every array that pushes can build, `write_to_guest` makes exactly the writes of `layout`, in
  -- its order, and stops early only where a write to the memory fails: no string misses the buffer
  -- or the heads of the sizes that the guest was told.
  pub write_to_guest-layout :
      (s : StringArray) (memory : Memory)
      → IsValid s
      → write_to_guest g s memory ≡ layout 0 0 s.elems memory
  unfolding write_to_guest
  write_to_guest-layout s memory v =
      let (n, c) = sizes_exact v in
      rw (n, c)
        (write_loop-layout s.elems (total s.elems) (length s.elems) 0 0 memory (omega arith)
          (omega arith) v.short)
