-- ===== src/Drivers/Http/Bodies.antt =====
-- What a guest reads of the body of a response, whatever the lengths of its buffers are.
use native.Mathlib.Nat.{mod-eq_of_lt}
use bls_runtime.Prelude.{
  ℕ, ◌+◌, ◌≤◌, ◌<◌, ◌≡◌, refl, ap, sym, ◌∙◌, Option, none, some, List, [], ◌∷◌, ◌++◌, Bytes, leb,
  if◌then◌else◌, length, take, drop, min, arith, All, Bool-cases, inl, inr, take-all, take-add,
  drop-all, u32_mod, ◌%◌, length-take-le, nat_same, take-length,
}
use bls_runtime.Prelude.Assoc.{lookup, remove, insert, lookup-insert, nat_eq}
use bls_runtime.Prelude.Result.{Result, ok, err}
use bls_runtime.Drivers.Http.Streams.{Item, StreamState}
use bls_runtime.Drivers.Http.Streams.Rounds.{bytes_of, behind, content, fill, Left, le_cases}
use bls_runtime.Drivers.Http.Streams.Filled.{stream_read-fill}
use bls_runtime.Drivers.Http.{
  HttpErrorKind, Request, Library, HttpCtx, response, stream_state, Contexts, http_req,
  http_read_body, read_stream, build_request, keep_response, increase_fd,
}

-- What a read counts of a filled destination.
counted :
    (c dest : Bytes) → take (min (length dest) (length c)) (fill c dest) ≡ take (length dest) c
counted c dest = elim (Bool-cases (leb (length dest) (length c))) [
  | inl more ↦
      let n : min (length dest) (length c) ≡ length (take (length dest) c) =
        ground (arith, length-take-le (length dest) c, more) in
      ap (λ k. take k (fill c dest)) n ∙ take-length (take (length dest) c) (drop (length c) dest)
  | inr all ↦
      let n : min (length dest) (length c) ≡ length c = ground (arith, all) in
      let whole : take (length dest) c ≡ c = take-all (length dest) c (ground (arith, all)) in
      rw (n, whole) (take-length c (drop (length c) dest))
]

-- Behind a read of a stream without errors in front of its bytes.
after_read :
    (n : ℕ) (c : Bytes) (s' : StreamState) (items : List Item)
    → Left n c items s'
    → behind items ≡ []
    → (content s' ≡ drop n c) × (behind s'.stream ≡ [])
after_read n c s' items (inside, past) clean = elim (le_cases n (length c)) [
  | inl le ↦ let (rest, same) = inside le in (rest, same ∙ clean)
  | inr lt ↦
      let ended = past lt in
      let all : drop n c ≡ [] = drop-all n c (omega (arith, lt)) in
      (
        ap content ended ∙ ap bytes_of clean ∙ sym all,
        ap (λ (s : StreamState). behind s.stream) ended ∙ ap behind clean,
      )
]

module _ (lib : Library) where
  abbrev state_of : HttpCtx lib → StreamState
  state_of (response resp) = record { stream = lib.bytes_stream resp; buffer = none }
  state_of (stream_state st) = st

  -- The handle has these bytes left, and no error of the network in front of others.
  abbrev Serves : ℕ → Bytes → Contexts lib → Type 0
  Serves fd c s =
      (x : HttpCtx lib) × (lookup fd s.ctx ≡ some x)
      × (content (state_of x) ≡ c)
      × (behind (state_of x).stream ≡ [])

  abbrev Answer : Type 0
  Answer = Result HttpErrorKind ℕ × Bytes × Contexts lib

  -- The bytes of a read in front of those of the reads behind it.
  abbrev pub in_front : Bytes → Option (Bytes × Contexts lib) → Option (Bytes × Contexts lib)
  in_front piece none = none
  in_front piece (some (rest, s)) = some (piece ++ rest, s)

  abbrev pub then_read :
      Option Answer → (Contexts lib → Option (Bytes × Contexts lib)) → Option (Bytes × Contexts lib)
  then_read none reads = none
  then_read (some (err e, dest, s)) reads = none
  then_read (some (ok n, dest, s)) reads = in_front (take n dest) (reads s)

  -- The reads of a handle into these buffers, and the bytes that they count, in order.
  unfoldable pub read_bodies : ℕ → List Bytes → Contexts lib → Option (Bytes × Contexts lib)
  read_bodies fd [] s = some ([], s)
  read_bodies fd (dest ∷ dests) s = then_read (http_read_body lib fd dest s) (read_bodies fd dests)

  abbrev pub total : List Bytes → ℕ
  total [] = 0
  total (dest ∷ dests) = length dest + total dests

  -- A buffer of a guest: not empty, and as long as a `u32` can say.
  abbrev pub IsBuffer : Bytes → Type 0
  IsBuffer dest = (0 < length dest) × (length dest < u32_mod)

  by_state :
      (fd : ℕ) (dest : Bytes) (s : Contexts lib) (x : HttpCtx lib)
      → lookup fd s.ctx ≡ some x
      → http_read_body lib fd dest s
        ≡ read_stream lib fd (state_of x) dest (record s { ctx = remove fd s.ctx })
  unfolding http_read_body
  by_state fd dest s (response resp) h = rw (h, http_read_body) refl
  by_state fd dest s (stream_state st) h = rw (h, http_read_body) refl

  read_once :
      (fd : ℕ) (dest c : Bytes) (s : Contexts lib)
      → IsBuffer dest
      → Serves fd c s
      → (s' : Contexts lib) × (http_read_body lib fd dest s
          ≡ some (ok (min (length dest) (length c)), fill c dest, s'))
        × Serves fd (drop (length dest) c) s'
  unfolding read_stream
  read_once fd dest c s fits (x, here, bytes, clean) =
      let st : StreamState = state_of x in
      let (st', read, rest) = stream_read-fill st dest fits.0 in
      let s' : Contexts lib = record s { ctx = insert fd (stream_state st') (remove fd s.ctx) } in
      let there : lookup fd s'.ctx ≡ some (stream_state st') =
        lookup-insert fd fd (stream_state st') (remove fd s.ctx)
        ∙ ap (λ b. if b then some (stream_state st') else lookup fd (remove fd s.ctx))
            (nat_same fd) in
      let small : min (length dest) (length (content st)) % u32_mod
          ≡ min (length dest) (length (content st)) =
        mod-eq_of_lt (ground (arith, fits.1)) in
      let read' : read_stream lib fd st dest (record s { ctx = remove fd s.ctx })
          ≡ some (ok (min (length dest) (length (content st))), fill (content st) dest, s') =
        rw (read, small, read_stream) refl in
      let left = after_read (length dest) (content st) st' st.stream rest clean in
      (
        s',
        by_state fd dest s x here
            ∙ read'
            ∙ ap (λ c. some (ok (min (length dest) (length c)), fill c dest, s')) bytes,
        (stream_state st', there, left.0 ∙ ap (drop (length dest)) bytes, left.1),
      )

  read_bodies-take :
      (fd : ℕ) (dests : List Bytes) (c : Bytes) (s : Contexts lib)
      → All IsBuffer dests
      → Serves fd c s
      → (s' : Contexts lib) × (read_bodies fd dests s ≡ some (take (total dests) c, s'))
  unfolding read_bodies
  read_bodies-take fd [] c s fits served = (s, refl)
  read_bodies-take fd (dest ∷ dests) c s fits served =
      let (s', read, served') = read_once fd dest c s fits.0 served in
      let (s'', rest) = read_bodies-take fd dests (drop (length dest) c) s' fits.1 served' in
      (
        s'',
        ap (λ a. then_read a (read_bodies fd dests)) read
            ∙ ap (in_front (take (min (length dest) (length c)) (fill c dest))) rest
            ∙ ap (λ t. some (t ++ take (total dests) (drop (length dest) c), s'')) (counted c dest)
            ∙ ap (λ t. some (t, s'')) (sym (take-add (length dest) (total dests) c)),
      )

  -- A request that the options describe and that is answered gets a handle with the status, and
  -- reads of that handle give back the body of the answer, whole and in order, however the network
  -- cuts it and whatever the lengths of the buffers are, once they are as long as it together. No
  -- buffer is empty, and no error of the network stands in front of another piece.
  pub http_req-read_bodies :
      (url opts : Bytes) (req : Request) (resp : lib.Response) (dests : List Bytes)
      (s : Contexts lib)
      → build_request lib url opts ≡ ok req
      → lib.send req ≡ some resp
      → behind (lib.bytes_stream resp) ≡ []
      → All IsBuffer dests
      → length (bytes_of (lib.bytes_stream resp)) ≤ total dests
      → (fd : ℕ) × (s' : Contexts lib) × (s'' : Contexts lib) × (http_req lib url opts s
          ≡ (ok (fd, lib.status resp), s'))
        × (read_bodies fd dests s' ≡ some (bytes_of (lib.bytes_stream resp), s''))
  unfolding http_req keep_response increase_fd
  http_req-read_bodies url opts req resp dests s built sent clean fits enough =
      let fd = (s.max_handle + 1) % u32_mod in
      let s' : Contexts lib = record { ctx = insert fd (response resp) s.ctx; max_handle = fd } in
      let there : lookup fd s'.ctx ≡ some (response resp) =
        lookup-insert fd fd (response resp) s.ctx
        ∙ ap (λ b. if b then some (response resp) else lookup fd s.ctx) (nat_same fd) in
      let body : Bytes = bytes_of (lib.bytes_stream resp) in
      let (s'', read) =
        read_bodies-take fd dests body s' fits (response resp, there, refl, clean) in
      (
        fd,
        s',
        s'',
        rw (built, sent, http_req) refl,
        read ∙ ap (λ b. some (b, s'')) (take-all (total dests) body enough),
      )
