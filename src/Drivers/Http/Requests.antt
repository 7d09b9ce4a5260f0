-- ===== src/Drivers/Http/Requests.antt =====
-- The handles of the HTTP driver over time, and the options that it refuses.
use mathlib.Core.Option.{some-injective}
use mathlib.Core.Path.{subst}
use native.Mathlib.Nat.{mod-eq_of_lt}
use bls_runtime.Prelude.{
  ℕ, ◌+◌, ◌%◌, ◌≤◌, ◌<◌, ◌≡◌, refl, ap, sym, ◌∙◌, false, none, some, [], Bytes, codes, ◌==◌,
  u32_mod, arith, Bool-cases, Option-cases, inl, inr,
}
use bls_runtime.Prelude.Assoc.{lookup, remove, insert, nat_eq, has_key}
use bls_runtime.Prelude.Result.{Result, ok, err, Result-cases}
use bls_runtime.Drivers.Handles.{
  Below, insert-Below, remove-Below, Below-le, Below-used, insert-other,
}
use bls_runtime.Drivers.Http.Streams.{StreamState, stream_read}
use bls_runtime.Drivers.Http.{
  HttpErrorKind, headers_validation_error, Library, response, stream_state, Contexts, http_req,
  http_read_body, http_close, read_stream, build_request, keep_response, increase_fd,
}

module _ (lib : Library) where
  -- The states that calls of guests reach, whatever they answer. The counter has not wrapped.
  pub data Reachable : Contexts lib → Type 1 where
    at_start : Reachable (record { ctx = []; max_handle = 0 })
    requests :
        {s : Contexts lib} (url opts : Bytes)
        → Reachable s
        → s.max_handle + 1 < u32_mod
        → Reachable (http_req lib url opts s).1
    reads :
        {s : Contexts lib} (fd : ℕ) (dest dest' : Bytes) (r : Result HttpErrorKind ℕ)
        (s' : Contexts lib)
        → Reachable s
        → http_read_body lib fd dest s ≡ some (r, dest', s')
        → Reachable s'
    closes : {s : Contexts lib} (fd : ℕ) → Reachable s → Reachable (http_close lib fd s).1

  abbrev IsBelow : Contexts lib → Type 0
  IsBelow s = Below s.max_handle s.ctx

  handle_of :
      {a b c d : ℕ} {s s' : Contexts lib}
      → ◌≡◌ {A = Result HttpErrorKind (ℕ × ℕ) × Contexts lib} (ok (a, b), s) (ok (c, d), s')
      → a ≡ c
  handle_of h = cc

  keep_response-IsBelow :
      (resp : lib.Response) (s : Contexts lib)
      → s.max_handle + 1 < u32_mod
      → IsBelow s
      → IsBelow (keep_response lib resp s).1
  unfolding keep_response increase_fd
  keep_response-IsBelow resp s room below =
      let next : (s.max_handle + 1) % u32_mod ≡ s.max_handle + 1 = mod-eq_of_lt room in
      insert-Below ((s.max_handle + 1) % u32_mod) ((s.max_handle + 1) % u32_mod) (response resp)
        s.ctx (omega arith)
        (Below-le s.max_handle ((s.max_handle + 1) % u32_mod) s.ctx (omega (arith, next)) below)

  http_req-IsBelow :
      (url opts : Bytes) (s : Contexts lib)
      → s.max_handle + 1 < u32_mod
      → IsBelow s
      → IsBelow (http_req lib url opts s).1
  unfolding http_req
  http_req-IsBelow url opts s room below = elim (Result-cases (build_request lib url opts)) [
    | inr (e, bad) ↦ rw (bad, http_req) below
    | inl (req, built) ↦ elim (Option-cases (lib.send req)) [
      | inl lost ↦ rw (built, lost, http_req) below
      | inr (resp, sent) ↦ rw (built, sent, http_req) (keep_response-IsBelow resp s room below)
    ]
  ]

  -- A read puts its handle back, which was in use.
  read_stream-IsBelow :
      (fd : ℕ) (st : StreamState) (dest dest' : Bytes) (r : Result HttpErrorKind ℕ)
      (s s' : Contexts lib)
      → fd ≤ s.max_handle
      → IsBelow s
      → read_stream lib fd st dest s ≡ some (r, dest', s')
      → IsBelow s'
  unfolding read_stream
  read_stream-IsBelow fd st dest dest' r s s' used below h =
      elim (Option-cases (stream_read st dest)) [
        | inl stuck ↦ absurd (cc (rw (stuck, read_stream) at h))
        | inr ((n, filled, st'), read) ↦
            let state : record s { ctx = insert fd (stream_state st') s.ctx } ≡ s' =
              ap (λ (a : Result HttpErrorKind ℕ × Bytes × Contexts lib). a.2)
                (some-injective _ _ (rw (read, read_stream) at h)) in
            subst IsBelow state (insert-Below s.max_handle fd (stream_state st') s.ctx used below)
      ]

  http_read_body-IsBelow :
      (fd : ℕ) (dest dest' : Bytes) (r : Result HttpErrorKind ℕ) (s s' : Contexts lib)
      → IsBelow s
      → http_read_body lib fd dest s ≡ some (r, dest', s')
      → IsBelow s'
  unfolding http_read_body
  http_read_body-IsBelow fd dest dest' r s s' below h =
      let s1 : Contexts lib = record s { ctx = remove fd s.ctx } in
      let below1 : IsBelow s1 = remove-Below s.max_handle fd s.ctx below in
      elim (Option-cases (lookup fd s.ctx)) [
        | inl gone ↦
            subst IsBelow
              (ap (λ (a : Result HttpErrorKind ℕ × Bytes × Contexts lib). a.2)
                (some-injective _ _ (rw (gone, http_read_body) at h)))
              below1
        | inr (response resp, there) ↦
            read_stream-IsBelow fd _ dest dest' r s1 s'
              (Below-used s.max_handle fd (response resp) s.ctx below there) below1
              (rw (there, http_read_body) at h)
        | inr (stream_state st, there) ↦
            read_stream-IsBelow fd st dest dest' r s1 s'
              (Below-used s.max_handle fd (stream_state st) s.ctx below there) below1
              (rw (there, http_read_body) at h)
      ]

  http_close-IsBelow : (fd : ℕ) (s : Contexts lib) → IsBelow s → IsBelow (http_close lib fd s).1
  unfolding http_close
  http_close-IsBelow fd s below = elim (Bool-cases (has_key fd s.ctx)) [
    | inl there ↦ rw (there, http_close) (remove-Below s.max_handle fd s.ctx below)
    | inr gone ↦ rw (gone, http_close) below
  ]

  Reachable-IsBelow : (s : Contexts lib) → Reachable s → IsBelow s
  unfolding lookup
  Reachable-IsBelow s at_start = λ j h. refl
  Reachable-IsBelow s (requests url opts before room) =
      http_req-IsBelow url opts _ room (Reachable-IsBelow _ before)
  Reachable-IsBelow s (reads fd dest dest' r s' before done) =
      http_read_body-IsBelow fd dest dest' r _ s' (Reachable-IsBelow _ before) done
  Reachable-IsBelow s (closes fd before) = http_close-IsBelow fd _ (Reachable-IsBelow _ before)

  -- In every state that requests, reads and closes reach before the counter wraps: a request that
  -- succeeds gives a handle that was not in use, and every other handle keeps its response.
  pub http_req-fresh :
      (url opts : Bytes) (s s' : Contexts lib) (fd status : ℕ)
      → Reachable s
      → s.max_handle + 1 < u32_mod
      → http_req lib url opts s ≡ (ok (fd, status), s')
      → (lookup fd s.ctx ≡ none) × ((j : ℕ) → (fd == j) ≡ false → lookup j s'.ctx ≡ lookup j s.ctx)
  unfolding http_req keep_response increase_fd
  http_req-fresh url opts s s' fd status before room h =
      let below = Reachable-IsBelow s before in
      let next : (s.max_handle + 1) % u32_mod ≡ s.max_handle + 1 = mod-eq_of_lt room in
      elim (Result-cases (build_request lib url opts)) [
        | inr (e, bad) ↦ absurd (cc (rw (bad, http_req) at h))
        | inl (req, built) ↦ elim (Option-cases (lib.send req)) [
          | inl lost ↦ absurd (cc (rw (built, lost, http_req) at h))
          | inr (resp, sent) ↦
              let h' = rw (built, sent, http_req) at h in
              let same : (s.max_handle + 1) % u32_mod ≡ fd = handle_of h' in
              let state = ap (λ (a : Result HttpErrorKind (ℕ × ℕ) × Contexts lib). a.1.ctx) h' in
              (
                below fd (omega (arith, next, same)),
                λ j differs.
                    ap (lookup j) (sym state)
                    ∙ insert-other ((s.max_handle + 1) % u32_mod) j (response resp) s.ctx
                        (ap (λ k. k == j) same ∙ differs),
              )
        ]
      ]

  -- A request whose options have no text of headers is refused before anything is sent, and no
  -- handle is used up, where the JSON library takes the empty text for no value: an absent member
  -- is read as an empty text, so that every request has to bring headers.
  pub http_req-headers_required :
      (url opts m : Bytes) (json : lib.Json) (s : Contexts lib)
      → lib.parse [] ≡ none
      → lib.parse opts ≡ some json
      → lib.as_str (lib.index json (codes "method")) ≡ some m
      → lib.as_str (lib.index json (codes "headers")) ≡ none
      → http_req lib url opts s ≡ (err headers_validation_error, s)
  unfolding http_req build_request
  http_req-headers_required url opts m json s empty parsed named absent =
      rw (parsed, named, absent, empty, build_request, http_req) refl
