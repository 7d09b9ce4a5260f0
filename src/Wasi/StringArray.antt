-- ===== src/Wasi/StringArray.antt =====
-- crates/wasi-common/src/string_array.rs: the arguments and the environment of the guest.
-- The guest's memory and its arrays belong to wiggle, and are the record `Guest` here.
pub mod Bounds
pub mod Layout
use bls_runtime.Prelude.{
  ℕ, suc, ◌+◌, ◌%◌, ◌≤◌, ◌<◌, ◌≡◌, Option, none, some, List, [], ◌∷◌, ◌++◌, Bytes, ltb,
  if◌then◌else◌, length, u32_max, u32_mod,
}
use bls_runtime.Wasi.Errno.{Error, errno, trap, inval, Result, ok, err}

pub record StringArray : Type 0 where
  pub elems : List Bytes

pub data StringArrayError : Type 0 where
  too_many_elements element_size too_long : StringArrayError

pub data Pushed : Type 0 where
  pushed : StringArray → Pushed
  refused : StringArrayError → Pushed

abbrev pub new : StringArray
new = record { elems = [] }

-- the sum of `e.as_bytes().len() + 1`
abbrev pub total : List Bytes → ℕ
total [] = 0
total (e ∷ es) = length e + 1 + total es

unfoldable pub number_elements : StringArray → ℕ
number_elements s = length s.elems % u32_mod

unfoldable pub cumulative_size : StringArray → ℕ
cumulative_size s = total s.elems % u32_mod

unfoldable pub push : Bytes → StringArray → Pushed
unfolding cumulative_size
push elem s =
    if ltb u32_max (length s.elems + 1)
    then refused too_many_elements
    else if ltb u32_max (length elem + 1)
    then refused element_size
    else if ltb u32_max (cumulative_size s + length elem + 1)
    then refused too_long
    else pushed (record { elems = s.elems ++ (elem ∷ []) })

-- An array of `len` bytes in the guest's memory, and the array of heads. `get_range` and `get`
-- give the offset of what they find. The laws are the documented bounds of wiggle's arrays.
pub record Guest : Type 1 where
  pub Memory : Type 0
  pub get_range : ℕ → ℕ → ℕ → Option ℕ
  pub get : ℕ → ℕ → Option ℕ
  pub copy_from_slice : Memory → ℕ → Bytes → Result Memory
  pub write_byte : Memory → ℕ → ℕ → Result Memory
  pub write_head : Memory → ℕ → ℕ → Result Memory
  pub get_range-some : (len from to : ℕ) → from ≤ to → to ≤ len → get_range len from to ≡ some from
  pub get-some : (len i : ℕ) → i < len → get len i ≡ some i

infixl 5 ◌>>=◌
abbrev pub ◌>>=◌ : {A B : Type 0} → Result A → (A → Result B) → Result B
ok a >>= f = f a
err e >>= f = err e

abbrev ok_or : {A : Type 0} → Option A → Error → Result A
ok_or none e = err e
ok_or (some a) e = ok a

module _ (g : Guest) where
  open g use {Memory, get_range, get, copy_from_slice, write_byte, write_head}

  -- One round of the loop, for the element `i` at `cursor` in a buffer of `size` bytes; the last
  -- `ok_or` is the `expect("already validated")` of the source.
  unfoldable pub write_elem : ℕ → ℕ → ℕ → Bytes → Memory → Result Memory
  write_elem size i cursor elem memory =
      let len = length elem % u32_mod in
      let stop = (cursor + len) % u32_mod in
      do
        at ← ok_or (get_range size cursor stop) (errno inval)
        copied ← copy_from_slice memory at elem
        zero_at ← ok_or (get size stop) (errno inval)
        ended ← write_byte copied zero_at 0
        head ← ok_or (get size cursor) (trap "already validated")
        write_head ended i head

  -- The loop ends with the elements, or with the heads: there are `heads` of them.
  unfoldable pub write_loop : ℕ → ℕ → ℕ → ℕ → List Bytes → Memory → Result Memory
  unfolding write_elem
  write_loop size heads i cursor [] memory = ok memory
  write_loop size heads i cursor (elem ∷ elems) memory =
      let rest = λ (m : Memory).
        write_loop size heads (i + 1) ((cursor + length elem % u32_mod + 1) % u32_mod) elems m in
      if ltb i heads then (write_elem size i cursor elem memory >>= rest) else ok memory

  unfoldable pub write_to_guest : StringArray → Memory → Result Memory
  unfolding write_loop number_elements cumulative_size
  write_to_guest s memory = write_loop (cumulative_size s) (number_elements s) 0 0 s.elems memory
