-- ===== src/ExitCode/Status.antt =====
-- The status that a run ends with: the numbers of blockless/src/lib.rs against the names of
-- bls-runtime/src/error.rs.
use mathlib.Core.Option.{some-injective}
use bls_runtime.Prelude.{
  ◌≡◌, ◌≢◌, ◌↔◌, refl, Bool, true, false, Option, none, some, Bytes, arith, ap,
}
use bls_runtime.ExitCode.{
  ℤ, pos, negsuc, CliExitCode, unknown_error, Trap, RunError, returns, from_i32, to_u8, to_i32,
  error_code, error_process, reported,
}

unfoldable pub is_unknown : CliExitCode → Bool
is_unknown (unknown_error s) = true
is_unknown _ = false

-- Which exit code explains a trap, by their names.
unfoldable pub explains : Trap → Option CliExitCode
explains Trap.out_of_fuel = some CliExitCode.flue_used_out
explains Trap.stack_overflow = some CliExitCode.call_stack_exhausted
explains Trap.memory_out_of_bounds = some CliExitCode.out_of_bounds_memory_access
explains Trap.heap_misaligned = some CliExitCode.misaligned_memory_access
explains Trap.table_out_of_bounds = some CliExitCode.undefined_element
explains Trap.indirect_call_to_null = some CliExitCode.uninitialized_element
explains Trap.bad_signature = some CliExitCode.indirect_call_type_mismatch
explains Trap.integer_overflow_trap = some CliExitCode.integer_overflow
explains Trap.integer_division_by_zero = some CliExitCode.integer_divide_by_zero
explains Trap.bad_conversion_to_integer = some CliExitCode.invalid_conversion_to_integer
explains Trap.unreachable_code_reached = some CliExitCode.unreachable_instruction_executed
explains Trap.interrupt_trap = some CliExitCode.interrupt
explains Trap.always_trap_adapter = some CliExitCode.degenerate_component_adapter_called
explains Trap.other_trap = none

module _ (format : ℤ → Bytes) where
  -- Writing an exit code that is known as a number and reading it back gives the code.
  from_i32-to_i32 : (c : CliExitCode) → is_unknown c ≡ false → from_i32 format (to_i32 c) ≡ c
  unfolding from_i32 to_i32 is_unknown
  from_i32-to_i32 (unknown_error s) h = cc
  from_i32-to_i32 _ h = refl

  -- A run that ends by a trap that an exit code is named for is reported under that exit
  -- code, whatever the text of the error.
  pub trap_reported :
      (e : RunError) (t : Trap) (c : CliExitCode)
      → e.trap ≡ some t
      → explains t ≡ some c
      → (from_i32 format (error_code e) ≡ c) × (reported format (error_code e) ≡ to_u8 c)
  unfolding error_code from_i32 explains reported
  trap_reported e Trap.other_trap c h k = absurd (cc)
  trap_reported e _ c h k =
      rw (h, error_code) (some-injective _ _ k, ap to_u8 (some-injective _ _ k))

  -- Success is reported for the code 0 and for no other.
  reported_zero : (code : ℤ) → (reported format code ≡ 0) ↔ (code ≡ pos 0)
  unfolding reported
  reported_zero (pos n) = (λ h. ground arith, λ h. ground arith)
  reported_zero (negsuc n) = (λ h. absurd (omega arith), λ h. cc)

  error_code-ne_zero : (e : RunError) → error_code e ≢ pos 0
  unfolding error_code
  error_code-ne_zero e h = ground arith

  -- A run that failed and returns a code is never reported as a success.
  pub failed_run_fails :
      (component : Bool) (e : RunError) (code : ℤ)
      → error_process component e ≡ returns code
      → reported format code ≢ 0
  unfolding error_process
  failed_run_fails true e code h z = ground (arith, error_code-ne_zero e, (reported_zero code).0 z)
  failed_run_fails false e code h z = ground (arith, error_code-ne_zero e, (reported_zero code).0 z)
