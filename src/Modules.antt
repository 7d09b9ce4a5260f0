-- ===== src/Modules.antt =====
-- blockless/src/modules.rs, the calls between modules: buffers in a memory, and
-- `InstanceCaller::call`. The instance that is called belongs to wasmtime: its functions and the
-- two memories are the record `Machine`. Where the source panics, the model gives `none`.
pub mod Call
pub mod Buffers
pub mod Linking
pub mod Registry
use bls_runtime.Prelude.{
  ℕ, ◌+◌, ◌-◌, ◌%◌, ◌≤◌, ◌≡◌, Bool, true, false, Option, none, some, List, ◌++◌, Bytes, leb, ◌==◌,
  if◌then◌else◌, length, take, drop, u32_mod,
}

-- blockless/src/error.rs
pub data McallError : Type 0 where
  no_error memory_not_found alloc_error dealloc_error : McallError
  mcall_memory_not_found mcall_error fail : McallError

unfoldable pub to_u32 : McallError → ℕ
to_u32 no_error = 0
to_u32 memory_not_found = 1
to_u32 alloc_error = 2
to_u32 dealloc_error = 3
to_u32 mcall_error = 4
to_u32 fail = 5
to_u32 mcall_memory_not_found = 6

-- The memory of the module that calls, or of the one that is called.
pub data Side : Type 0 where
  caller callee : Side

-- A pointer of the guest is the `u32` that the source casts it to.
pub record Machine : Type 1 where
  pub State : Type 0
  pub data_of : Side → State → Bytes
  pub set_data : Side → Bytes → State → State
  pub alloc : ℕ → State → Option ℕ × State
  pub dealloc : ℕ → ℕ → State → Bool × State
  pub func : ℕ → ℕ → ℕ → ℕ → State → Bool × State

pub record MemBuf : Type 0 where
  pub mem : Side
  pub buf : ℕ
  pub buf_len : ℕ

abbrev pub min : ℕ → ℕ → ℕ
min a b = if leb a b then a else b

-- `&mem[start..start + len]`
unfoldable pub read_range : Bytes → ℕ → ℕ → Option Bytes
read_range m start len =
    if leb (start + len) (length m) then some (take len (drop start m)) else none

-- `mem[start..start + from.len()].copy_from_slice(from)`
unfoldable pub write_range : Bytes → ℕ → Bytes → Option Bytes
write_range m start from =
    if leb (start + length from) (length m)
    then some (take start m ++ from ++ drop (start + length from) m)
    else none

abbrev pub and_then {ℓ κ} : {A : Type ℓ} {B : Type κ} → Option A → (A → Option B) → Option B
and_then none f = none
and_then (some a) f = f a

module _ (m : Machine) where
  open m use {State, data_of, set_data, alloc, dealloc, func}

  -- A slice of `dest_len` bytes is filled, which must be the length of what is read.
  unfoldable pub copy_to_slice : MemBuf → ℕ → State → Option Bytes
  unfolding read_range
  copy_to_slice b dest_len s =
      and_then (read_range (data_of b.mem s) b.buf (min b.buf_len dest_len))
        λ from. if length from == dest_len then some from else none

  unfoldable pub copy_from_slice : MemBuf → Bytes → State → Option State
  unfolding write_range
  copy_from_slice b from s =
      and_then (write_range (data_of b.mem s) b.buf (take (min b.buf_len (length from)) from))
        λ d. some (set_data b.mem d s)

  unfoldable pub copy_from : MemBuf → MemBuf → State → Option State
  unfolding copy_to_slice copy_from_slice
  copy_from b other s =
      and_then (copy_to_slice other (min b.buf_len other.buf_len) s)
        λ temp. copy_from_slice b temp s

  abbrev pub or_dealloc_error : Bool → McallError → McallError
  or_dealloc_error false no_error = dealloc_error
  or_dealloc_error _ e = e

  -- A `dealloc` behind the call: its failure is reported where nothing failed before.
  unfoldable pub release : ℕ → ℕ → McallError × State → McallError × State
  release ptr len (result, s) =
      let (freed, s') = dealloc ptr len s in (or_dealloc_error freed result, s')

  -- The function itself; a result is copied out where the function did not fail.
  unfoldable pub invoke : ℕ → ℕ → ℕ → MemBuf → State → Option (McallError × State)
  unfolding copy_from
  invoke ptr params_len result_ptr caller_mem s =
      let (ran, s') = func ptr params_len result_ptr caller_mem.buf_len s in
      elim ran [
        | false ↦ some (mcall_error, s')
        | true ↦
            and_then
              (copy_from caller_mem
                (record { mem = callee; buf = result_ptr; buf_len = caller_mem.buf_len }) s')
              λ s''. some (no_error, s'')
      ]

  -- From the second buffer on: the parameter is copied in, the function runs, both are released.
  unfoldable pub run_with : Bytes → ℕ → ℕ → MemBuf → State → Option (McallError × State)
  unfolding copy_from_slice invoke release
  run_with param ptr result_ptr caller_mem s =
      let params_len = length param % u32_mod in
      and_then (copy_from_slice (record { mem = callee; buf = ptr; buf_len = params_len }) param s)
        λ s'.
          and_then (invoke ptr params_len result_ptr caller_mem s')
            λ r. some (release result_ptr caller_mem.buf_len (release ptr params_len r))

  unfoldable pub call : Bytes → MemBuf → State → Option (McallError × State)
  unfolding run_with
  call param caller_mem s =
      let params_len = length param % u32_mod in
      let (first, s1) = alloc params_len s in
      elim first [
        | none ↦ some (alloc_error, s1)
        | some ptr ↦
            let (second, s2) = alloc caller_mem.buf_len s1 in
            elim second [
              | none ↦ some (alloc_error, (dealloc ptr params_len s2).1)
              | some result_ptr ↦ run_with param ptr result_ptr caller_mem s2
            ]
      ]
