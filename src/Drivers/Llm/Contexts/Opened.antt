-- ===== src/Drivers/Llm/Contexts/Opened.antt =====
-- Which models a guest can start.
use mathlib.Core.Path.{subst}
use bls_runtime.Prelude.{
  ℕ, ◌≡◌, refl, ap, sym, ◌∙◌, Bool, true, none, some, [], Bytes, inl, inr, ◌⊎◌, Option-cases,
}
use bls_runtime.Prelude.Assoc.{lookup, insert, nat_eq}
use bls_runtime.Prelude.Result.{Result, ok, guard-eq-ok, Result-cases, ok-injective}
use bls_runtime.Drivers.Handles.{insert-same}
use bls_runtime.Drivers.Llm.Models.{Urls, Models, url, from_str}
use bls_runtime.Drivers.Llm.Models.Trusted.{IsTrusted, from_str-IsTrusted}
use bls_runtime.Drivers.Llm.Tools.{Services}
use bls_runtime.Drivers.Llm.Contexts.{
  LlmErrorKind, permission_deny, insert_instance, Backend, LlmContext, State, new_context,
  make_context, llm_set_model, may_open,
}

module _ (urls : Urls) (services : Services) (backend : Backend urls) (model : Bytes)
    (checker : urls.Url → Bool) where
  -- What is known of a context that was made.
  abbrev pub IsMade : LlmContext urls services backend → Type 0
  IsMade c =
      (m : Models urls) × (from_str urls model ≡ ok m)
      × (may_open urls services backend checker m ≡ true)
      × (backend.initialize (backend.new_provider m) ≡ some c.provider)
      × (c.model ≡ model)
      × (c.messages ≡ [])
      × (c.tools_map ≡ none)

  make_context-IsMade :
      (c : LlmContext urls services backend)
      → make_context urls services backend model checker ≡ ok c
      → IsMade c
  unfolding make_context new_context
  make_context-IsMade c h = elim (Result-cases (from_str urls model)) [
    | inr (e, unknown) ↦ absurd (cc (rw (unknown, make_context) at h))
    | inl (m, known) ↦
        let (allowed, h1) =
          guard-eq-ok (may_open urls services backend checker m) permission_deny
            (new_context urls services backend model (backend.new_provider m))
            (rw (known, make_context) at h) in
        started m known allowed (Option-cases (backend.initialize (backend.new_provider m))) h1
  ]
    where
      started :
          (m : Models urls)
          → from_str urls model ≡ ok m
          → may_open urls services backend checker m ≡ true
          → (backend.initialize (backend.new_provider m) ≡ none)
            ⊎ ((p : backend.Provider) × (backend.initialize (backend.new_provider m) ≡ some p))
          → new_context urls services backend model (backend.new_provider m) ≡ ok c
          → IsMade c
      started m known allowed (inl lost) h = absurd (cc (rw (lost, new_context) at h))
      started m known allowed (inr (p, ran)) h =
          let made = ok-injective _ _ (rw (ran, new_context) at h) in
          subst IsMade made (m, known, allowed, ran, refl, refl, refl)

  -- A handle that `llm_set_model` gives is that of a new conversation with a model that started:
  -- one of the known names, or a URL that the permissions allow, that is trusted, and whose model
  -- is kept under a plain file name. The conversation is empty and has no tools.
  pub llm_set_model-opens :
      (s s' : State urls services backend) (handle : ℕ)
      → llm_set_model urls services backend model checker s ≡ (ok handle, s')
      → (c : LlmContext urls services backend) × (lookup handle s'.contexts ≡ some c)
        × IsMade c
        × ((u : urls.Url)
            → from_str urls model ≡ ok (url u)
            → (checker u ≡ true) × ((f : Bytes) × IsTrusted urls u f))
  unfolding llm_set_model insert_instance
  llm_set_model-opens s s' handle h =
      elim (Result-cases (make_context urls services backend model checker)) [
        | inr (e, failed) ↦ absurd (cc (rw (failed, llm_set_model) at h))
        | inl (c, made) ↦
            let known = make_context-IsMade c made in
            let h' = rw (made, llm_set_model) at h in
            let state =
              ap (λ (x : Result LlmErrorKind ℕ × State urls services backend). x.1.contexts) h' in
            let same : s.next_handle ≡ handle = handle_of h' in
            (
              c,
              ap (lookup handle) (sym state)
                  ∙ ap (λ k. lookup handle (insert k c s.contexts)) same
                  ∙ insert-same handle c s.contexts,
              known,
              λ u as_url. (
                trusted_url known.0 u known.2 (ok-injective _ _ (sym known.1 ∙ as_url)),
                from_str-IsTrusted urls model u as_url,
              ),
            )
      ]
    where
      trusted_url :
          (m : Models urls) (u : urls.Url)
          → may_open urls services backend checker m ≡ true
          → m ≡ url u
          → checker u ≡ true
      trusted_url m u allowed same =
          ap (may_open urls services backend checker) (sym same) ∙ allowed

      handle_of :
          {a b : ℕ} {t t' : State urls services backend}
          → ◌≡◌ {A = Result LlmErrorKind ℕ × State urls services backend} (ok a, t) (ok b, t')
          → a ≡ b
      handle_of h = cc
