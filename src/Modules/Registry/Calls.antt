-- ===== src/Modules/Registry/Calls.antt =====
-- blockless/src/modules.rs, the two functions that a guest calls: `register_fn` and `mcall_fn`. The
-- JSON library is a parameter; a panic is `none`.
use bls_runtime.Prelude.{
  ℕ, ◌+◌, Bool, Option, none, some, List, Bytes, codes, if◌then◌else◌, ltb, length, take, u32_mod,
  map,
}
use bls_runtime.Prelude.Assoc.{lookup, nat_eq}
use bls_runtime.Prelude.Text.{bytes_eq}
use bls_runtime.Modules.{
  McallError, no_error, memory_not_found, mcall_memory_not_found, fail, and_then, min, read_range,
  write_range,
}
use bls_runtime.Modules.Registry.{InstanceCaller, InstanceCtx, CallerError, register_methods}

pub record Json : Type 1 where
  pub Value : Type 0
  pub parse : Bytes → Option Value
  pub index : Value → Bytes → Value
  pub as_str : Value → Option Bytes
  pub members : Value → List Value
  pub to_string : Value → Bytes
  pub dump : Value → Bytes
  pub dump_error : Bytes → Bytes

pub record Guest (State : Type 0) : Type 0 where
  pub has_memory : State → Bool
  pub mem_ptr : State → ℕ
  pub data_of : State → Bytes
  pub set_data : Bytes → State → State

-- `mem_slice[start..end]`: the end is a `u32`, and a sum beyond it wraps below the start.
unfoldable pub request : Bytes → ℕ → ℕ → Option Bytes
unfolding read_range
request mem addr addr_len =
    if ltb (addr + addr_len) u32_mod then read_range mem addr addr_len else none

module _ (json : Json) where
  unfoldable pub process_register_req : Bytes → Option (List Bytes)
  process_register_req json_str =
      and_then (json.parse json_str)
        λ obj. some (map json.to_string (json.members (json.index obj (codes "methods"))))

  unfoldable pub parse_mcall : Bytes → Option (Bytes × Bytes)
  parse_mcall param = and_then (json.parse param) λ obj.
      and_then (json.as_str (json.index obj (codes "mcall")))
        λ name. some (name, json.dump (json.index obj (codes "params")))

  module _ {State : Type 0} (guest : Guest State) where
    -- `ResponseErrorJson::response`: as much of the text as the buffer takes.
    unfoldable pub response : ℕ → ℕ → Bytes → State → Option State
    unfolding write_range
    response ptr len msg s =
        let bs = json.dump_error msg in
        and_then (write_range (guest.data_of s) ptr (take (min len (length bs)) bs))
          λ d. some (guest.set_data d s)

    module _ {Memory Func : Type 0} where
      -- `responseError!`
      unfoldable pub respond :
          ℕ
          → ℕ
          → Bytes
          → State
          → InstanceCtx Memory Func
          → Option (McallError × State × InstanceCtx Memory Func)
      unfolding response
      respond buf buf_len msg s ctx =
          and_then (response buf buf_len msg s) λ s'. some (fail, s', ctx)

      -- `register_fn` behind the module's name: the request is read, and its methods registered.
      unfoldable pub register_text :
          (Func → Bool)
          → (CallerError → Bytes)
          → ℕ
          → ℕ
          → Bytes
          → Bytes
          → State
          → InstanceCtx Memory Func
          → Option (McallError × State × InstanceCtx Memory Func)
      unfolding process_register_req register_methods respond
      register_text is_caller describe buf buf_len m text s ctx = elim (process_register_req text) [
        | none ↦ respond buf buf_len (codes "error parse json") s ctx
        | some methods ↦
            let r = register_methods is_caller describe m methods ctx in
            elim r.0 [ none ↦ some (no_error, s, r.1) | some msg ↦ respond buf buf_len msg s r.1 ]
      ]

      -- `register_fn` of a guest that exports a memory
      unfoldable pub register_in :
          (Func → Bool)
          → (CallerError → Bytes)
          → ℕ
          → ℕ
          → ℕ
          → ℕ
          → State
          → InstanceCtx Memory Func
          → Option (McallError × State × InstanceCtx Memory Func)
      unfolding request register_text
      register_in is_caller describe addr addr_len buf buf_len s ctx =
          and_then (request (guest.data_of s) addr addr_len) λ text.
            elim (lookup (guest.mem_ptr s) ctx.modules) [
              | none ↦ some (mcall_memory_not_found, s, ctx)
              | some m ↦ register_text is_caller describe buf buf_len m text s ctx
            ]

      unfoldable pub register_fn :
          (Func → Bool)
          → (CallerError → Bytes)
          → ℕ
          → ℕ
          → ℕ
          → ℕ
          → State
          → InstanceCtx Memory Func
          → Option (McallError × State × InstanceCtx Memory Func)
      unfolding register_in
      register_fn is_caller describe addr addr_len buf buf_len s ctx =
          if guest.has_memory s
          then register_in is_caller describe addr addr_len buf buf_len s ctx
          else some (memory_not_found, s, ctx)

      -- `mcall_fn` of a guest that exports a memory; `parse_message` is the text of the error, and
      -- `call` is `InstanceCaller::call` into the buffer of the guest.
      unfoldable pub mcall_in :
          (InstanceCaller Memory Func → Bytes → ℕ → ℕ → State → Option (McallError × State))
          → Bytes
          → ℕ
          → ℕ
          → ℕ
          → ℕ
          → State
          → InstanceCtx Memory Func
          → Option (McallError × State × InstanceCtx Memory Func)
      unfolding request parse_mcall respond
      mcall_in call parse_message addr addr_len buf buf_len s ctx =
          and_then (request (guest.data_of s) addr addr_len) λ text. elim (parse_mcall text) [
            | none ↦ respond buf buf_len parse_message s ctx
            | some (name, params) ↦ elim (lookup name ctx.module_caller) [
              | none ↦ respond buf buf_len (codes "no mcall register.") s ctx
              | some c ↦ and_then (call c params buf buf_len s) λ r. some (r.0, r.1, ctx)
            ]
          ]

      unfoldable pub mcall_fn :
          (InstanceCaller Memory Func → Bytes → ℕ → ℕ → State → Option (McallError × State))
          → Bytes
          → ℕ
          → ℕ
          → ℕ
          → ℕ
          → State
          → InstanceCtx Memory Func
          → Option (McallError × State × InstanceCtx Memory Func)
      unfolding mcall_in
      mcall_fn call parse_message addr addr_len buf buf_len s ctx =
          if guest.has_memory s
          then mcall_in call parse_message addr addr_len buf buf_len s ctx
          else some (memory_not_found, s, ctx)
