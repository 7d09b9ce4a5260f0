-- ===== src/ExitCode.antt =====
-- How a run ends: the exit codes of bls-runtime/src/error.rs, `error_process` of
-- blockless/src/lib.rs, and the status that bls-runtime/src/main.rs reports.
pub mod Status
use bls_runtime.Prelude.{
  ℕ, Bool, true, false, Option, none, some, Bytes, codes, ◌==◌, if◌then◌else◌,
}
use bls_runtime.Prelude.Text.{starts_with}

-- An `i32`: `negsuc n` is -(n + 1).
pub data ℤ : Type 0 where
  pos : ℕ → ℤ
  negsuc : ℕ → ℤ

pub data CliExitCode : Type 0 where
  success flue_used_out call_stack_exhausted out_of_bounds_memory_access : CliExitCode
  misaligned_memory_access undefined_element uninitialized_element : CliExitCode
  indirect_call_type_mismatch integer_overflow integer_divide_by_zero : CliExitCode
  invalid_conversion_to_integer unreachable_instruction_executed interrupt : CliExitCode
  degenerate_component_adapter_called app_timeout pages_exceeds_memory_limits : CliExitCode
  configure_error : CliExitCode
  unknown_error : Bytes → CliExitCode

module _ (format : ℤ → Bytes) where
  -- `From<i32>`; `format` writes the text "exit code: .." of a code that is not known.
  unfoldable pub from_i32 : ℤ → CliExitCode
  from_i32 (negsuc n) = unknown_error (format (negsuc n))
  from_i32 (pos n) =
      if n == 0
      then success
      else if n == 1
      then flue_used_out
      else if n == 2
      then call_stack_exhausted
      else if n == 3
      then out_of_bounds_memory_access
      else if n == 4
      then misaligned_memory_access
      else if n == 5
      then undefined_element
      else if n == 6
      then uninitialized_element
      else if n == 7
      then indirect_call_type_mismatch
      else if n == 8
      then integer_overflow
      else if n == 9
      then integer_divide_by_zero
      else if n == 10
      then invalid_conversion_to_integer
      else if n == 11
      then unreachable_instruction_executed
      else if n == 12
      then interrupt
      else if n == 13
      then degenerate_component_adapter_called
      else if n == 15
      then app_timeout
      else if n == 16
      then pages_exceeds_memory_limits
      else if n == 128
      then configure_error
      else unknown_error (format (pos n))

  -- `From<u8>` goes through `i32`.
  unfoldable pub from_u8 : ℕ → CliExitCode
  unfolding from_i32
  from_u8 n = from_i32 (pos n)

-- `From<CliExitCode> for u8`
unfoldable pub to_u8 : CliExitCode → ℕ
to_u8 success = 0
to_u8 flue_used_out = 1
to_u8 call_stack_exhausted = 2
to_u8 out_of_bounds_memory_access = 3
to_u8 misaligned_memory_access = 4
to_u8 undefined_element = 5
to_u8 uninitialized_element = 6
to_u8 indirect_call_type_mismatch = 7
to_u8 integer_overflow = 8
to_u8 integer_divide_by_zero = 9
to_u8 invalid_conversion_to_integer = 10
to_u8 unreachable_instruction_executed = 11
to_u8 interrupt = 12
to_u8 degenerate_component_adapter_called = 13
to_u8 app_timeout = 15
to_u8 pages_exceeds_memory_limits = 16
to_u8 configure_error = 128
to_u8 (unknown_error s) = 255

unfoldable pub to_i32 : CliExitCode → ℤ
unfolding to_u8
to_i32 c = pos (to_u8 c)

-- The traps that `error_process` names; `other_trap` stands for the rest of the engine's.
pub data Trap : Type 0 where
  out_of_fuel stack_overflow memory_out_of_bounds heap_misaligned table_out_of_bounds : Trap
  indirect_call_to_null bad_signature integer_overflow_trap integer_division_by_zero : Trap
  bad_conversion_to_integer unreachable_code_reached interrupt_trap always_trap_adapter : Trap
  other_trap : Trap

unfoldable pub trap_code_2_exit_code : Trap → Option ℤ
trap_code_2_exit_code out_of_fuel = some (pos 1)
trap_code_2_exit_code stack_overflow = some (pos 2)
trap_code_2_exit_code memory_out_of_bounds = some (pos 3)
trap_code_2_exit_code heap_misaligned = some (pos 4)
trap_code_2_exit_code table_out_of_bounds = some (pos 5)
trap_code_2_exit_code indirect_call_to_null = some (pos 6)
trap_code_2_exit_code bad_signature = some (pos 7)
trap_code_2_exit_code integer_overflow_trap = some (pos 8)
trap_code_2_exit_code integer_division_by_zero = some (pos 9)
trap_code_2_exit_code bad_conversion_to_integer = some (pos 10)
trap_code_2_exit_code unreachable_code_reached = some (pos 11)
trap_code_2_exit_code interrupt_trap = some (pos 12)
trap_code_2_exit_code always_trap_adapter = some (pos 13)
trap_code_2_exit_code other_trap = none

-- What `error_process` asks of an `anyhow::Error`: its downcasts, and its text.
pub record RunError : Type 0 where
  pub component_exit : Option ℤ
  pub core_exit : Option ℤ
  pub trap : Option Trap
  pub text : Bytes

-- The process exits at once, or the run returns a code to `main`.
pub data Ended : Type 0 where
  exits : ℤ → Ended
  returns : ℤ → Ended

abbrev and_then : {A B : Type 0} → Option A → (A → Option B) → Option B
and_then none f = none
and_then (some a) f = f a

-- the code of an error that asks for no exit
unfoldable pub error_code : RunError → ℤ
unfolding trap_code_2_exit_code
error_code e = elim (and_then e.trap trap_code_2_exit_code) [
  | some code ↦ code
  | none ↦ if starts_with (codes "memory minimum size of") e.text then pos 16 else negsuc 0
]

unfoldable pub error_process : Bool → RunError → Ended
unfolding error_code
error_process true e = elim e.component_exit [
  | some code ↦ exits code
  | none ↦ returns (error_code e)
]
error_process false e = elim e.core_exit [ some code ↦ exits code | none ↦ returns (error_code e) ]

-- `exit_status.code.into()` in `wasm_runtime`, and the byte that `Termination::report` gives to
-- the process: the byte of the exit code that a returned code stands for.
unfoldable pub reported : (ℤ → Bytes) → ℤ → ℕ
unfolding from_i32 to_u8
reported format code = to_u8 (from_i32 format code)
