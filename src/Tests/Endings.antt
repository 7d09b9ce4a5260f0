-- ===== src/Tests/Endings.antt =====
-- How runs end.
use bls_runtime.Prelude.{◌≡◌, refl, false, some, none, Bytes, codes}
use bls_runtime.ExitCode.{
  ℤ, pos, out_of_bounds_memory_access, memory_out_of_bounds, RunError, returns, error_code,
  error_process, trap_code_2_exit_code,
}
use bls_runtime.ExitCode.Status.{explains}

abbrev no_text : ℤ → Bytes
no_text z = codes "exit code"

abbrev out_of_bounds : RunError
out_of_bounds = record {
  component_exit = none;
  core_exit = none;
  trap = some memory_out_of_bounds;
  text = codes "wasm trap";
}

explained : explains memory_out_of_bounds ≡ some out_of_bounds_memory_access
unfolding explains
explained = refl

trap_returns : error_process false out_of_bounds ≡ returns (pos 3)
unfolding error_process error_code trap_code_2_exit_code
trap_returns = refl
