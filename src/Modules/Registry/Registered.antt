-- ===== src/Modules/Registry/Registered.antt =====
-- What a registration without an error has done.
use mathlib.Core.Option.{some-injective}
use mathlib.Core.Path.{subst}
use bls_runtime.Prelude.{
  ℕ, ◌≡◌, refl, ap, sym, ◌∙◌, Bool, true, Option, none, some, List, [], ◌∷◌, ◌++◌, Bytes, codes,
  All, drop, length, drop-length, if◌then◌else◌, Bool-cases, Option-cases, ◌⊎◌, inl, inr,
}
use bls_runtime.Prelude.Assoc.{lookup, insert, lookup-insert, nat_eq}
use bls_runtime.Prelude.Text.{bytes_eq, bytes_beq, bytes_beq_iff}
use bls_runtime.Modules.{McallError, no_error, fail}
use bls_runtime.Modules.Registry.{
  InstanceInfo, InstanceCaller, InstanceCtx, CallerError, instance_caller, caller_name,
  register_methods,
}
use bls_runtime.Modules.Registry.Calls.{
  Json, Guest, request, process_register_req, respond, response, register_text, register_in,
  register_fn,
}

-- A module has one name for a method.
caller_name-same : (m a b : Bytes) → caller_name m a ≡ caller_name m b → a ≡ b
caller_name-same m a b h =
    let head = m ++ codes "::" in
    sym (drop-length head a) ∙ ap (drop (length head)) h ∙ drop-length head b

module _ {Memory Func : Type 0} (is_caller : Func → Bool) where
  -- A method of a kept module that can be called under its name.
  abbrev pub IsCallable : InstanceCtx Memory Func → Bytes → Bytes → Type 0
  IsCallable ctx m method =
      (info : InstanceInfo Memory Func) × (c : InstanceCaller Memory Func) × (lookup m
          ctx.instance_infos
        ≡ some info)
      × (instance_caller is_caller info method ≡ inr c)
      × (lookup (caller_name m method) ctx.module_caller ≡ some c)

  -- One method that the loop adds.
  abbrev added :
      InstanceCtx Memory Func → Bytes → Bytes → InstanceCaller Memory Func → InstanceCtx Memory Func
  added ctx m method c = record ctx {
    module_caller = insert (caller_name m method) c ctx.module_caller;
  }

  added-IsCallable :
      (ctx : InstanceCtx Memory Func) (m method : Bytes) (info : InstanceInfo Memory Func)
      (c : InstanceCaller Memory Func)
      → lookup m ctx.instance_infos ≡ some info
      → instance_caller is_caller info method ≡ inr c
      → IsCallable (added ctx m method c) m method
  added-IsCallable ctx m method info c known made =
      let same : bytes_beq (caller_name m method) (caller_name m method) ≡ true =
        (bytes_beq_iff (caller_name m method) (caller_name m method)).1 refl in
      (
        info,
        c,
        known,
        made,
        lookup-insert (caller_name m method) (caller_name m method) c ctx.module_caller
            ∙ ap (λ b. if b then some c else lookup (caller_name m method) ctx.module_caller) same,
      )

  added-keeps :
      (ctx : InstanceCtx Memory Func) (m method other : Bytes) (info : InstanceInfo Memory Func)
      (c : InstanceCaller Memory Func)
      → lookup m ctx.instance_infos ≡ some info
      → instance_caller is_caller info method ≡ inr c
      → IsCallable ctx m other
      → IsCallable (added ctx m method c) m other
  added-keeps ctx m method other info c known made (info', c', known', made', there) =
      elim (Bool-cases (bytes_beq (caller_name m method) (caller_name m other))) [
        | inl same ↦
            let name = caller_name-same m method other ((bytes_beq_iff _ _).0 same) in
            subst (IsCallable (added ctx m method c) m) name
              (added-IsCallable ctx m method info c known made)
        | inr differs ↦ (
          info',
          c',
          known',
          made',
          lookup-insert (caller_name m method) (caller_name m other) c ctx.module_caller
              ∙ ap (λ b. if b then some c else lookup (caller_name m other) ctx.module_caller)
                  differs
              ∙ there,
        )
      ]

  module _ (describe : CallerError → Bytes) (m : Bytes) where
    -- How the loop goes on where it ends without an error.
    register_step :
        (method : Bytes) (methods : List Bytes) (ctx : InstanceCtx Memory Func)
        → (register_methods is_caller describe m (method ∷ methods) ctx).0 ≡ none
        → (info : InstanceInfo Memory Func) × (c : InstanceCaller Memory Func) × (lookup m
              ctx.instance_infos
            ≡ some info)
          × (instance_caller is_caller info method ≡ inr c)
          × (register_methods is_caller describe m (method ∷ methods) ctx
              ≡ register_methods is_caller describe m methods (added ctx m method c))
    unfolding register_methods
    register_step method methods ctx h = elim (Option-cases (lookup m ctx.instance_infos)) [
      | inl missing ↦ absurd (cc (rw (missing, register_methods) at h))
      | inr (info, known) ↦ elim (caller-cases (instance_caller is_caller info method)) [
        | inl (e, failed) ↦ absurd (cc (rw (known, failed, register_methods) at h))
        | inr (c, made) ↦ (info, c, known, made, rw (known, made, register_methods) refl)
      ]
    ]
      where
        caller-cases :
            (r : CallerError ⊎ InstanceCaller Memory Func)
            → ((e : CallerError) × (r ≡ inl e)) ⊎ ((c : InstanceCaller Memory Func) × (r ≡ inr c))
        caller-cases (inl e) = inl (e, refl)
        caller-cases (inr c) = inr (c, refl)

    register_methods-keeps :
        (methods : List Bytes) (ctx : InstanceCtx Memory Func) (other : Bytes)
        → (register_methods is_caller describe m methods ctx).0 ≡ none
        → IsCallable ctx m other
        → IsCallable (register_methods is_caller describe m methods ctx).1 m other
    unfolding register_methods
    register_methods-keeps [] ctx other h there = there
    register_methods-keeps (method ∷ methods) ctx other h there =
        let (info, c, known, made, goes) = register_step method methods ctx h in
        subst (λ (r : Option Bytes × InstanceCtx Memory Func). IsCallable r.1 m other) (sym goes)
          (register_methods-keeps methods (added ctx m method c) other
            (sym (ap (λ (r : Option Bytes × InstanceCtx Memory Func). r.0) goes) ∙ h)
            (added-keeps ctx m method other info c known made there))

    register_methods-done :
        (methods : List Bytes) (ctx : InstanceCtx Memory Func)
        → (register_methods is_caller describe m methods ctx).0 ≡ none
        → All (IsCallable (register_methods is_caller describe m methods ctx).1 m) methods
    unfolding register_methods
    register_methods-done [] ctx h = tt
    register_methods-done (method ∷ methods) ctx h =
        let (info, c, known, made, goes) = register_step method methods ctx h in
        let clean = sym (ap (λ (r : Option Bytes × InstanceCtx Memory Func). r.0) goes) ∙ h in
        subst
          (λ (r : Option Bytes × InstanceCtx Memory Func).
            All (IsCallable r.1 m) (method ∷ methods))
          (sym goes)
          (
            register_methods-keeps methods (added ctx m method c) method clean
                (added-IsCallable ctx m method info c known made),
            register_methods-done methods (added ctx m method c) clean,
          )

module _ {Memory Func State : Type 0} (json : Json) (guest : Guest State) (is_caller : Func → Bool)
    (describe : CallerError → Bytes) where
  respond-fails :
      (buf buf_len : ℕ) (msg : Bytes) (s : State) (ctx : InstanceCtx Memory Func)
      (answer : McallError × State × InstanceCtx Memory Func)
      → respond json guest buf buf_len msg s ctx ≡ some answer
      → answer.0 ≡ fail
  unfolding respond
  respond-fails buf buf_len msg s ctx answer h =
      elim (Option-cases (response json guest buf buf_len msg s)) [
        | inl e ↦ absurd (cc (rw (e, respond) at h))
        | inr (s', e) ↦ sym (
            ap (λ (a : McallError × State × InstanceCtx Memory Func). a.0)
              (some-injective _ _ (rw (e, respond) at h)))
      ]

  register_text-done :
      (buf buf_len : ℕ) (m text : Bytes) (s s' : State) (ctx ctx' : InstanceCtx Memory Func)
      → register_text json guest is_caller describe buf buf_len m text s ctx
        ≡ some (no_error, s', ctx')
      → (s' ≡ s)
        × (methods : List Bytes) × (process_register_req json text ≡ some methods)
        × All (IsCallable is_caller ctx' m) methods
  unfolding register_text
  register_text-done buf buf_len m text s s' ctx ctx' h =
      elim (Option-cases (process_register_req json text)) [
        | inl unread ↦
            absurd (cc (respond-fails buf buf_len _ s ctx _ (rw (unread, register_text) at h)))
        | inr (methods, read) ↦
            let r = register_methods is_caller describe m methods ctx in
            elim (Option-cases r.0) [
              | inr (msg, failed) ↦ absurd (
                  cc
                    (respond-fails buf buf_len msg s r.1 _ (rw (read, failed, register_text) at h)))
              | inl clean ↦
                  let e = some-injective _ _ (rw (read, clean, register_text) at h) in
                  let state : s ≡ s' =
                    ap (λ (a : McallError × State × InstanceCtx Memory Func). a.1) e in
                  let made : r.1 ≡ ctx' =
                    ap (λ (a : McallError × State × InstanceCtx Memory Func). a.2) e in
                  (
                    sym state,
                    methods,
                    read,
                    subst (λ x. All (IsCallable is_caller x m) methods) made
                        (register_methods-done is_caller describe m methods ctx clean),
                  )
            ]
      ]

  register_in-registers :
      (addr addr_len buf buf_len : ℕ) (s s' : State) (ctx ctx' : InstanceCtx Memory Func)
      → register_in json guest is_caller describe addr addr_len buf buf_len s ctx
        ≡ some (no_error, s', ctx')
      → (s' ≡ s)
        × (m text : Bytes) × (methods : List Bytes) × (request (guest.data_of s) addr addr_len
            ≡ some text)
        × (lookup (guest.mem_ptr s) ctx.modules ≡ some m)
        × (process_register_req json text ≡ some methods)
        × All (IsCallable is_caller ctx' m) methods
  unfolding register_in
  register_in-registers addr addr_len buf buf_len s s' ctx ctx' h =
      elim (Option-cases (request (guest.data_of s) addr addr_len)) [
        | inl bad ↦ absurd (cc (rw (bad, register_in) at h))
        | inr (text, there) ↦ elim (Option-cases (lookup (guest.mem_ptr s) ctx.modules)) [
          | inl unknown ↦ absurd (cc (some-injective _ _ (rw (there, unknown, register_in) at h)))
          | inr (m, known) ↦
              let (state, methods, read, all) =
                register_text-done buf buf_len m text s s' ctx ctx'
                  (rw (there, known, register_in) at h) in
              (state, m, text, methods, there, known, read, all)
        ]
      ]

  -- A registration that answers without an error has changed nothing of the guest, and every method
  -- of its request can then be called as `module::method`, for the module that the guest's memory
  -- names: the caller is the one that this module's exports give for the method.
  pub register_fn-registers :
      (addr addr_len buf buf_len : ℕ) (s s' : State) (ctx ctx' : InstanceCtx Memory Func)
      → register_fn json guest is_caller describe addr addr_len buf buf_len s ctx
        ≡ some (no_error, s', ctx')
      → (s' ≡ s)
        × (m text : Bytes) × (methods : List Bytes) × (request (guest.data_of s) addr addr_len
            ≡ some text)
        × (lookup (guest.mem_ptr s) ctx.modules ≡ some m)
        × (process_register_req json text ≡ some methods)
        × All (IsCallable is_caller ctx' m) methods
  unfolding register_fn
  register_fn-registers addr addr_len buf buf_len s s' ctx ctx' h =
      elim (Bool-cases (guest.has_memory s)) [
        | inl exported ↦
            register_in-registers addr addr_len buf buf_len s s' ctx ctx'
              (rw (exported, register_fn) at h)
        | inr missing ↦ absurd (cc (some-injective _ _ (rw (missing, register_fn) at h)))
      ]
