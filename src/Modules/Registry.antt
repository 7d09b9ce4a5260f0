-- ===== src/Modules/Registry.antt =====
-- blockless/src/modules.rs, the registered functions: `instance_module` keeps the exports of a
-- module, and what `register_fn` makes of them. The engine is a parameter; the lock around the
-- registry is not modelled.
pub mod Calls
pub mod Wired
pub mod Reached
pub mod Registered
use bls_runtime.Prelude.{
  ℕ, Bool, true, false, Option, none, some, List, [], ◌∷◌, ◌++◌, Bytes, codes, if◌then◌else◌, ◌⊎◌,
  inl, inr, ◌&&◌,
}
use bls_runtime.Prelude.Assoc.{Assoc, lookup, insert, nat_eq}
use bls_runtime.Prelude.Text.{bytes_eq, bytes_beq}

pub data Extern (Memory Func : Type 0) : Type 0 where
  memory : Memory → Extern Memory Func
  func : Func → Extern Memory Func
  other : Extern Memory Func

pub record InstanceInfo (Memory Func : Type 0) : Type 0 where
  pub mem : Option Memory
  pub alloc : Option Func
  pub dealloc : Option Func
  pub export_funcs : Assoc Bytes Func

pub record InstanceCaller (Memory Func : Type 0) : Type 0 where
  pub mem : Memory
  pub alloc : Func
  pub dealloc : Func
  pub func : Func

pub record InstanceCtx (Memory Func : Type 0) : Type 0 where
  pub modules : Assoc ℕ Bytes
  pub module_caller : Assoc Bytes (InstanceCaller Memory Func)
  pub instance_infos : Assoc Bytes (InstanceInfo Memory Func)

-- `InstanceCtx::new`
abbrev pub empty_ctx : {Memory Func : Type 0} → InstanceCtx Memory Func
empty_ctx = record { modules = []; module_caller = []; instance_infos = [] }

-- What `instance_module` gathers from the exports.
pub record Gathered (Memory Func : Type 0) : Type 0 where
  pub initial : Option Func
  pub alloc : Option Func
  pub dealloc : Option Func
  pub mem : Option Memory
  pub funcs : Assoc Bytes Func

-- The errors of `instance_caller`, in the order of its tests.
pub data CallerError : Type 0 where
  method_not_found no_memory no_alloc no_dealloc not_typed : CallerError

-- Whether a function that is there has its type.
abbrev pub typed_or_missing : {Func : Type 0} → (Func → Bool) → Option Func → Bool
typed_or_missing is_typed none = true
typed_or_missing is_typed (some f) = is_typed f

abbrev pub or_error : {A : Type 0} → CallerError → Option A → CallerError ⊎ A
or_error e none = inl e
or_error e (some a) = inr a

infixl 5 ◌>>=◌
abbrev pub ◌>>=◌ : {A B : Type 0} → CallerError ⊎ A → (A → CallerError ⊎ B) → CallerError ⊎ B
inl e >>= f = inl e
inr a >>= f = f a

-- `format!("{}::{method}", &req.module)`
abbrev pub caller_name : Bytes → Bytes → Bytes
caller_name m method = m ++ codes "::" ++ method

module _ {Memory Func : Type 0} where
  abbrev pub into_memory : Extern Memory Func → Option Memory
  into_memory (memory m) = some m
  into_memory (func f) = none
  into_memory other = none

  unfoldable pub gather_func : Bytes → Func → Gathered Memory Func → Gathered Memory Func
  gather_func name f g =
      if bytes_beq name (codes "_initialize")
      then record g { initial = some f }
      else if bytes_beq name (codes "alloc")
      then record g { alloc = some f }
      else if bytes_beq name (codes "dealloc")
      then record g { dealloc = some f }
      else record g { funcs = insert name f g.funcs }

  -- One export: the name `memory` is of the memory, or of nothing.
  unfoldable pub gather : Bytes × Extern Memory Func → Gathered Memory Func → Gathered Memory Func
  unfolding gather_func
  gather (name, e) g =
      if bytes_beq name (codes "memory")
      then record g { mem = into_memory e }
      else elim e [ memory m ↦ g | func f ↦ gather_func name f g | other ↦ g ]

  unfoldable pub gather_all :
      List (Bytes × Extern Memory Func) → Gathered Memory Func → Gathered Memory Func
  unfolding gather
  gather_all [] g = g
  gather_all (e ∷ es) g = gather_all es (gather e g)

  abbrev pub gathered_none : Gathered Memory Func
  gathered_none = record { initial = none; alloc = none; dealloc = none; mem = none; funcs = [] }

  -- `instance_caller`; `is_caller` is the engine's test of the type of a function.
  unfoldable pub instance_caller :
      (Func → Bool) → InstanceInfo Memory Func → Bytes → CallerError ⊎ InstanceCaller Memory Func
  instance_caller is_caller info method = do
    export_func ← or_error method_not_found (lookup method info.export_funcs)
    mem ← or_error no_memory info.mem
    alloc ← or_error no_alloc info.alloc
    dealloc ← or_error no_dealloc info.dealloc
    if is_caller export_func
        then inr (record { mem = mem; alloc = alloc; dealloc = dealloc; func = export_func })
        else inl not_typed

  -- The loop over the methods, with the message of the error that ends it; the callers that were
  -- inserted before stay.
  unfoldable pub register_methods :
      (Func → Bool)
      → (CallerError → Bytes)
      → Bytes
      → List Bytes
      → InstanceCtx Memory Func
      → Option Bytes × InstanceCtx Memory Func
  unfolding instance_caller
  register_methods is_caller describe m [] ctx = (none, ctx)
  register_methods is_caller describe m (method ∷ methods) ctx =
      elim (lookup m ctx.instance_infos) [
        | none ↦ (some (codes "no module found"), ctx)
        | some info ↦ elim (instance_caller is_caller info method) [
          | inl e ↦ (some (describe e), ctx)
          | inr c ↦
              register_methods is_caller describe m methods
                (record ctx { module_caller = insert (caller_name m method) c ctx.module_caller })
        ]
      ]

-- What wasmtime does for `instance_module`, on a state of its own. The start function runs guest
-- code, which may register functions.
pub record Engine (Memory Func State : Type 0) : Type 0 where
  pub instantiate : State → Option (List (Bytes × Extern Memory Func)) × State
  pub data_ptr : Memory → State → ℕ
  pub is_alloc : Func → Bool
  pub is_dealloc : Func → Bool
  pub is_start : Func → Bool
  pub is_caller : Func → Bool
  pub link : Bytes → State → Bool × State
  pub start : Func → State × InstanceCtx Memory Func → Bool × (State × InstanceCtx Memory Func)

module _ {Memory Func State : Type 0} (engine : Engine Memory Func State) where
  -- The address of the memory names the module.
  unfoldable pub name_memory :
      Bytes → Option Memory → State → InstanceCtx Memory Func → InstanceCtx Memory Func
  name_memory m_name none s ctx = ctx
  name_memory m_name (some m) s ctx = record ctx {
    modules = insert (engine.data_ptr m s) m_name ctx.modules;
  }

  -- `instance_module` behind the instantiation, up to the start function.
  unfoldable pub keep_exports :
      Bytes
      → Gathered Memory Func
      → State
      → InstanceCtx Memory Func
      → Bool × (State × InstanceCtx Memory Func)
  unfolding name_memory
  keep_exports m_name g s ctx =
      let named = name_memory m_name g.mem s ctx in
      if typed_or_missing engine.is_alloc g.alloc && typed_or_missing engine.is_dealloc g.dealloc
      then (let (linked, s') = engine.link m_name s in
          if linked
          then (
            true,
            (
              s',
              record named {
                instance_infos =
                    insert m_name
                      (record {
                        mem = g.mem;
                        alloc = g.alloc;
                        dealloc = g.dealloc;
                        export_funcs = g.funcs;
                      })
                      named.instance_infos;
              },
            ),
          )
          else (false, (s', named)))
      else (false, (s, named))

  abbrev run_start :
      Option Func → State × InstanceCtx Memory Func → Bool × (State × InstanceCtx Memory Func)
  run_start none s = (true, s)
  run_start (some f) s = if engine.is_start f then engine.start f s else (false, s)

  unfoldable pub instance_module :
      Bytes → State → InstanceCtx Memory Func → Bool × (State × InstanceCtx Memory Func)
  unfolding gather_all keep_exports
  instance_module m_name s ctx =
      let (exports, s') = engine.instantiate s in
      elim exports [
        | none ↦ (false, (s', ctx))
        | some es ↦
            let g = gather_all es gathered_none in
            let (kept, r) = keep_exports m_name g s' ctx in
            if kept then run_start g.initial r else (false, r)
      ]
