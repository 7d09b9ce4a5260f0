-- ===== src/Drivers/Llm/Contexts/Closed.antt =====
-- A conversation that is closed.
use bls_runtime.Prelude.{
  ℕ, ◌≡◌, refl, ap, ◌∙◌, Bool, false, none, Bytes, ◌==◌, if◌then◌else◌, nat_same, Option-cases, inl,
  inr,
}
use bls_runtime.Prelude.Assoc.{lookup, remove, lookup-remove, nat_eq}
use bls_runtime.Prelude.Result.{err}
use bls_runtime.Drivers.Llm.Models.{Urls}
use bls_runtime.Drivers.Llm.Tools.{Services}
use bls_runtime.Drivers.Llm.Contexts.{
  model_not_set, with_instance, with_instance_mut, remove_instance, Backend, State, llm_get_model,
  llm_get_options, llm_prompt, change, llm_read_response, llm_close,
}

module _ (urls : Urls) (services : Services) (backend : Backend urls) where
  -- Every call of a handle says that it has no model, and changes nothing.
  abbrev pub IsUnset : ℕ → State urls services backend → Type 0
  IsUnset handle s =
      (llm_get_model urls services backend handle s ≡ err model_not_set)
      × (llm_get_options urls services backend handle s ≡ err model_not_set)
      × ((p : Bytes) → llm_prompt urls services backend handle p s ≡ (err model_not_set, s))
      × ((meanwhile : ℕ → State urls services backend → State urls services backend)
          → llm_read_response urls services backend meanwhile handle s ≡ (err model_not_set, s))

  missing-IsUnset :
      (handle : ℕ) (s : State urls services backend)
      → lookup handle s.contexts ≡ none
      → IsUnset handle s
  unfolding llm_get_model llm_get_options llm_prompt change with_instance with_instance_mut
      llm_read_response
  missing-IsUnset handle s gone = (
    rw (gone, with_instance, llm_get_model) refl,
    rw (gone, with_instance, llm_get_options) refl,
    (λ p. rw (gone, with_instance_mut, change, llm_prompt) refl),
    λ meanwhile. rw (gone, llm_read_response) refl,
  )

  close_state :
      (is_shared : Bool) (handle : ℕ) (s : State urls services backend)
      → (llm_close urls services backend is_shared handle s).1
        ≡ record s { contexts = remove handle s.contexts }
  unfolding llm_close remove_instance
  close_state is_shared handle s = elim (Option-cases (lookup handle s.contexts)) [
    | inl unknown ↦ rw (unknown, llm_close, remove_instance) refl
    | inr (c, there) ↦ rw (there, llm_close, remove_instance) refl
  ]

  -- A handle that is closed has no model any more, also where its model could not be ended or
  -- a read still holds it, and every other handle stays.
  llm_close-IsUnset :
      (is_shared : Bool) (handle : ℕ) (s : State urls services backend)
      → IsUnset handle (llm_close urls services backend is_shared handle s).1
        × ((j : ℕ)
            → (handle == j) ≡ false
            → lookup j (llm_close urls services backend is_shared handle s).1.contexts
              ≡ lookup j s.contexts)
  llm_close-IsUnset is_shared handle s =
      let s' : State urls services backend = record s { contexts = remove handle s.contexts } in
      let gone : lookup handle s'.contexts ≡ none =
        lookup-remove handle handle s.contexts
        ∙ ap (λ b. if b then none else lookup handle s.contexts) (nat_same handle) in
      rw (close_state is_shared handle s) (
        missing-IsUnset handle s' gone,
        λ j differs.
            lookup-remove handle j s.contexts
            ∙ ap (λ b. if b then none else lookup j s.contexts) differs,
      )
