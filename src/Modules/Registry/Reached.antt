-- ===== src/Modules/Registry/Reached.antt =====
-- The callers of every registry that instances and registrations can make.
use bls_runtime.Prelude.{ℕ, ◌≡◌, none, some, List, Bytes, ◌⊎◌}
use bls_runtime.Prelude.Assoc.{lookup, nat_eq}
use bls_runtime.Prelude.Text.{bytes_eq}
use bls_runtime.Modules.{McallError}
use bls_runtime.Modules.Registry.{
  InstanceCtx, empty_ctx, Gathered, CallerError, register_methods, Engine, keep_exports,
}
use bls_runtime.Modules.Registry.Calls.{Json, Guest, respond, respond, register_fn}

module _ {Memory Func State : Type 0} (engine : Engine Memory Func State) where
  -- The changes of the registry: a module of a new name is kept, or a guest registers functions.
  pub data Reachable : InstanceCtx Memory Func → Type 1 where
    at_start : Reachable empty_ctx
    keeps :
        {ctx : InstanceCtx Memory Func} (m_name : Bytes) (g : Gathered Memory Func) (s : State)
        → Reachable ctx
        → lookup m_name ctx.instance_infos ≡ none
        → Reachable (keep_exports engine m_name g s ctx).1.1
    registers :
        {ctx : InstanceCtx Memory Func} (json : Json) (guest : Guest State)
        (describe : CallerError → Bytes) (addr addr_len buf buf_len : ℕ) (s : State)
        (answer : McallError × State × InstanceCtx Memory Func)
        → Reachable ctx
        → register_fn json guest engine.is_caller describe addr addr_len buf buf_len s ctx
          ≡ some answer
        → Reachable answer.2

  module _ (json : Json) (guest : Guest State) where
    -- A registration leaves the registry as it is, or as the loop over the methods makes it.
    Registers :
        Bytes → InstanceCtx Memory Func → InstanceCtx Memory Func → (CallerError → Bytes) → Type 0
    Registers m ctx after describe =
        (after ≡ ctx)
        ⊎ ((methods : List Bytes) × (after
              ≡ (register_methods engine.is_caller describe m methods ctx).1))
