-- ===== src/Modules/Registry/Wired.antt =====
-- The callers of the registry, and that keeping a module and registering its methods keeps them
-- right.
use mathlib.Core.Option.{some-injective}
use mathlib.Core.Path.{subst}
use bls_runtime.Prelude.{
  ◌≡◌, refl, ap, sym, ◌∙◌, Bool, true, ◌&&◌, Option, none, some, List, [], ◌∷◌, Bytes,
  if◌then◌else◌, if_intro, Bool-cases, Option-cases, ◌⊎◌, inl, inr,
}
use bls_runtime.Prelude.Assoc.{lookup, insert, lookup-insert, nat_eq}
use bls_runtime.Prelude.Text.{bytes_eq, bytes_beq, bytes_beq_iff}
use bls_runtime.Modules.Registry.{
  InstanceInfo, InstanceCaller, InstanceCtx, Gathered, CallerError, instance_caller, caller_name,
  register_methods, Engine, name_memory, keep_exports, typed_or_missing,
}

module _ {Memory Func : Type 0} (is_caller : Func → Bool) where
  abbrev pub IsMade : InstanceInfo Memory Func → Bytes → InstanceCaller Memory Func → Type 0
  IsMade info method c =
      (lookup method info.export_funcs ≡ some c.func)
      × (is_caller c.func ≡ true)
      × (info.mem ≡ some c.mem)
      × (info.alloc ≡ some c.alloc)
      × (info.dealloc ≡ some c.dealloc)

  -- A caller under a name: the name is of a method of a module that is kept. The caller's function is
  -- the module's export of this name and has the type of a call; its memory and its two allocation
  -- functions are the module's.
  abbrev pub IsOf : InstanceCtx Memory Func → Bytes → InstanceCaller Memory Func → Type 0
  IsOf ctx key c =
      (m method : Bytes) × (info : InstanceInfo Memory Func) × (key ≡ caller_name m method)
      × (lookup m ctx.instance_infos ≡ some info)
      × IsMade info method c

  abbrev pub IsWired : InstanceCtx Memory Func → Type 0
  IsWired ctx =
      (key : Bytes) (c : InstanceCaller Memory Func)
      → lookup key ctx.module_caller ≡ some c
      → IsOf ctx key c

  inr_lem :
      {a b : InstanceCaller Memory Func}
      → ◌≡◌ {A = CallerError ⊎ InstanceCaller Memory Func} (inr a) (inr b)
      → a ≡ b
  inr_lem {a} {b} h =
      ap (λ (r : CallerError ⊎ InstanceCaller Memory Func). elim r [ inl e ↦ a | inr c ↦ c ]) h

  instance_caller-IsMade :
      (info : InstanceInfo Memory Func) (method : Bytes) (c : InstanceCaller Memory Func)
      → instance_caller is_caller info method ≡ inr c
      → IsMade info method c
  unfolding instance_caller
  instance_caller-IsMade info method c made =
      elim (Option-cases (lookup method info.export_funcs)) [
        | inl e ↦ absurd (cc (rw (e, instance_caller) at made))
        | inr (f, found) ↦ elim (Option-cases info.mem) [
          | inl e ↦ absurd (cc (rw (found, e, instance_caller) at made))
          | inr (mem, has_mem) ↦ elim (Option-cases info.alloc) [
            | inl e ↦ absurd (cc (rw (found, has_mem, e, instance_caller) at made))
            | inr (alloc, has_alloc) ↦ elim (Option-cases info.dealloc) [
              | inl e ↦ absurd (cc (rw (found, has_mem, has_alloc, e, instance_caller) at made))
              | inr (dealloc, has_dealloc) ↦
                  let rest = rw (found, has_mem, has_alloc, has_dealloc, instance_caller) at made in
                  elim (Bool-cases (is_caller f)) [
                    | inr untyped ↦ absurd (cc (rw untyped at rest))
                    | inl typed ↦
                        let same = inr_lem (rw typed at rest) in
                        subst (IsMade info method) same
                          (found, typed, has_mem, has_alloc, has_dealloc)
                  ]
            ]
          ]
        ]
      ]

  insert-IsWired :
      (ctx : InstanceCtx Memory Func) (key : Bytes) (c : InstanceCaller Memory Func)
      → IsWired ctx
      → IsOf ctx key c
      → IsWired (record ctx { module_caller = insert key c ctx.module_caller })
  insert-IsWired ctx key c wired new j d h =
      let found = sym (lookup-insert key j c ctx.module_caller) ∙ h in
      elim (Bool-cases (bytes_beq key j)) [
        | inl same ↦
            let value : c ≡ d = some-injective _ _ (rw same at found) in
            let name : key ≡ j = (bytes_beq_iff key j).0 same in
            subst (λ x. IsOf ctx x d) name (subst (λ x. IsOf ctx key x) value new)
        | inr other ↦ wired j d (rw other at found)
      ]

  pub register_methods-IsWired :
      (describe : CallerError → Bytes) (m : Bytes) (methods : List Bytes)
      (ctx : InstanceCtx Memory Func)
      → IsWired ctx
      → IsWired (register_methods is_caller describe m methods ctx).1
  unfolding register_methods
  register_methods-IsWired describe m [] ctx wired = wired
  register_methods-IsWired describe m (method ∷ methods) ctx wired =
      elim (Option-cases (lookup m ctx.instance_infos)) [
        | inl missing ↦ rw (missing, register_methods) wired
        | inr (info, known) ↦ elim (caller-cases (instance_caller is_caller info method)) [
          | inl (e, failed) ↦ rw (known, failed, register_methods) wired
          | inr (c, made) ↦
              rw (known, made, register_methods)
                (register_methods-IsWired describe m methods
                  (record ctx { module_caller = insert (caller_name m method) c ctx.module_caller })
                  (insert-IsWired ctx (caller_name m method) c wired
                    (m, method, info, refl, known, instance_caller-IsMade info method c made)))
        ]
      ]
    where
      caller-cases :
          (r : CallerError ⊎ InstanceCaller Memory Func)
          → ((e : CallerError) × (r ≡ inl e)) ⊎ ((c : InstanceCaller Memory Func) × (r ≡ inr c))
      caller-cases (inl e) = inl (e, refl)
      caller-cases (inr c) = inr (c, refl)

module _ {Memory Func State : Type 0} (engine : Engine Memory Func State) where
  name_memory-IsWired :
      (m_name : Bytes) (mem : Option Memory) (s : State) (ctx : InstanceCtx Memory Func)
      → IsWired engine.is_caller ctx
      → IsWired engine.is_caller (name_memory engine m_name mem s ctx)
  unfolding name_memory
  name_memory-IsWired m_name none s ctx wired = wired
  name_memory-IsWired m_name (some m) s ctx wired = wired

  name_memory-infos :
      (m_name : Bytes) (mem : Option Memory) (s : State) (ctx : InstanceCtx Memory Func)
      → (name_memory engine m_name mem s ctx).instance_infos ≡ ctx.instance_infos
  unfolding name_memory
  name_memory-infos m_name none s ctx = refl
  name_memory-infos m_name (some m) s ctx = refl

  insert_info-IsWired :
      (m_name : Bytes) (info : InstanceInfo Memory Func) (ctx : InstanceCtx Memory Func)
      → lookup m_name ctx.instance_infos ≡ none
      → IsWired engine.is_caller ctx
      → IsWired engine.is_caller
          (record ctx { instance_infos = insert m_name info ctx.instance_infos })
  insert_info-IsWired m_name info ctx fresh wired key c h =
      let (m, method, kept, name, known, made) = wired key c h in
      (m, method, kept, name, still m kept known, made)
    where
      still :
          (m : Bytes) (kept : InstanceInfo Memory Func)
          → lookup m ctx.instance_infos ≡ some kept
          → lookup m (insert m_name info ctx.instance_infos) ≡ some kept
      still m kept known = elim (Bool-cases (bytes_beq m_name m)) [
        | inl same ↦
            let name : m_name ≡ m = (bytes_beq_iff m_name m).0 same in
            absurd (cc (fresh, known, name))
        | inr other ↦
            lookup-insert m_name m info ctx.instance_infos
            ∙ ap (λ b. if b then some info else lookup m ctx.instance_infos) other
            ∙ known
      ]

  -- A module that is kept under a new name.
  pub keep_exports-IsWired :
      (m_name : Bytes) (g : Gathered Memory Func) (s : State) (ctx : InstanceCtx Memory Func)
      → lookup m_name ctx.instance_infos ≡ none
      → IsWired engine.is_caller ctx
      → IsWired engine.is_caller (keep_exports engine m_name g s ctx).1.1
  unfolding keep_exports
  keep_exports-IsWired m_name g s ctx fresh wired =
      let named = name_memory engine m_name g.mem s ctx in
      let known = name_memory-IsWired m_name g.mem s ctx wired in
      let new : lookup m_name named.instance_infos ≡ none =
        ap (lookup m_name) (name_memory-infos m_name g.mem s ctx) ∙ fresh in
      let Good : Bool × (State × InstanceCtx Memory Func) → Type 0 =
        λ r. IsWired engine.is_caller r.1.1 in
      if_intro Good
        (typed_or_missing engine.is_alloc g.alloc && typed_or_missing engine.is_dealloc g.dealloc)
        (λ _.
          if_intro Good (engine.link m_name s).0 (λ _. insert_info-IsWired m_name _ named new known)
            (λ _. known))
        (λ _. known)
