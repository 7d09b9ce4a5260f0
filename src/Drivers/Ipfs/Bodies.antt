-- ===== src/Drivers/Ipfs/Bodies.antt =====
-- What a guest reads of the answer to a command, whatever the lengths of its buffers are.
use native.Mathlib.Nat.{mod-eq_of_lt}
use bls_runtime.Prelude.{
  ℕ, ◌+◌, ◌-◌, ◌%◌, ◌≤◌, ◌<◌, ◌≡◌, refl, ap, sym, ◌∙◌, false, Option, none, some, List, [], ◌∷◌,
  ◌++◌, Bytes, leb, ◌==◌, length, take, drop, min, u32_mod, arith, All, Bool-cases, inl, inr,
  length-drop, take-all, take-add, drop-add, drop-all, drop-min_left, take-min_left, length-take-le,
}
use bls_runtime.Prelude.Assoc.{lookup, insert, nat_eq}
use bls_runtime.Drivers.Handles.{insert-same}
use bls_runtime.Drivers.Ipfs.HttpRaw.{done, failed, panics, Library}
use bls_runtime.Drivers.Ipfs.{
  Response, body_of, copy_remain, Client, response, Contexts, inner_command, keep_ctx, command,
  Read, read_ctx, read_body,
}

-- What a response has left.
abbrev left : Response → Bytes
left r = drop r.read_p (body_of r.body)

copy_remain_lem :
    (len : ℕ) (r : Response)
    → (r' : Response) × (copy_remain len r ≡ (take len (left r), r'))
      × (left r' ≡ drop len (left r))
unfolding copy_remain
copy_remain_lem len r = elim (Bool-cases (length (body_of r.body) - r.read_p == 0)) [
  | inl ended ↦
      let nothing : left r ≡ [] = drop-all r.read_p (body_of r.body) (ground (arith, ended)) in
      (
        r,
        rw ended (λ i. (sym (cut nothing) i, r)),
        nothing ∙ sym (ap (drop len) nothing ∙ drop-all len [] (omega arith)),
      )
  | inr more ↦
      let size = min (length (body_of r.body) - r.read_p) len in
      let same : length (body_of r.body) - r.read_p ≡ length (left r) =
        sym (length-drop r.read_p (body_of r.body)) in
      let r' : Response = record r { read_p = r.read_p + size } in
      (
        r',
        rw more
            (λ i. ((ap (λ k. take (min k len) (left r)) same ∙ take-min_left len (left r)) i, r')),
        drop-add r.read_p size (body_of r.body)
            ∙ ap (λ k. drop (min k len) (left r)) same
            ∙ drop-min_left len (left r),
      )
]
  where
    cut : left r ≡ [] → take len (left r) ≡ []
    cut nothing = ap (take len) nothing ∙ take-all len [] (omega arith)

length-take : (n : ℕ) (xs : Bytes) → length (take n xs) ≤ n
length-take n xs = elim (Bool-cases (leb n (length xs))) [
  | inl short ↦ omega (arith, length-take-le n xs (ground (arith, short)))
  | inr long ↦
      let whole = take-all n xs (ground (arith, long)) in ground (arith, ap length whole, long)
]

module _ (lib : Library) (client : Client) where
  -- The handle has these bytes left.
  abbrev Serves : ℕ → Bytes → Contexts lib client → Type 0
  Serves handle c s = (r : Response) × (lookup handle s.ctx ≡ some (response r)) × (left r ≡ c)

  abbrev pub in_front :
      Bytes → Option (Bytes × Contexts lib client) → Option (Bytes × Contexts lib client)
  in_front piece none = none
  in_front piece (some (rest, s)) = some (piece ++ rest, s)

  abbrev pub then_read :
      Read lib client
      → (Contexts lib client → Option (Bytes × Contexts lib client))
      → Option (Bytes × Contexts lib client)
  then_read none reads = none
  then_read (some (failed e, s)) reads = none
  then_read (some (panics, s)) reads = none
  then_read (some (done (n, piece), s)) reads = in_front (take n piece) (reads s)

  -- The reads of a handle with buffers of these lengths, and the bytes that they count, in order.
  unfoldable pub read_bodies :
      ℕ → ℕ → List ℕ → Contexts lib client → Option (Bytes × Contexts lib client)
  read_bodies fuel handle [] s = some ([], s)
  read_bodies fuel handle (n ∷ ns) s =
      then_read (read_body lib client fuel handle n s) (read_bodies fuel handle ns)

  abbrev pub sum : List ℕ → ℕ
  sum [] = 0
  sum (n ∷ ns) = n + sum ns

  abbrev pub IsLength : ℕ → Type 0
  IsLength n = (0 < n) × (n < u32_mod)

  read_once :
      (fuel handle n : ℕ) (c : Bytes) (s : Contexts lib client)
      → IsLength n
      → Serves handle c s
      → (s' : Contexts lib client) × (read_body lib client fuel handle n s
          ≡ some (done (length (take n c), take n c), s'))
        × Serves handle (drop n c) s'
  unfolding read_body read_ctx
  read_once fuel handle n c s (some_room, small) (r, here, bytes) =
      let (r', copied, rest) = copy_remain_lem n r in
      let s' : Contexts lib client = record s { ctx = insert handle (response r') s.ctx } in
      let room : (n == 0) ≡ false = ground (arith, some_room) in
      let fits : length (take n (left r)) % u32_mod ≡ length (take n (left r)) =
        mod-eq_of_lt (omega (arith, length-take n (left r), small)) in
      (
        s',
        rw (room, here, read_body, copied, read_ctx, fits)
            (ap (λ b. some (done (length (take n b), take n b), s')) bytes),
        (r', insert-same handle (response r') s.ctx, rest ∙ ap (drop n) bytes),
      )

  read_bodies-take :
      (fuel handle : ℕ) (ns : List ℕ) (c : Bytes) (s : Contexts lib client)
      → All IsLength ns
      → Serves handle c s
      → (s' : Contexts lib client) × (read_bodies fuel handle ns s ≡ some (take (sum ns) c, s'))
  unfolding read_bodies
  read_bodies-take fuel handle [] c s fits served = (s, refl)
  read_bodies-take fuel handle (n ∷ ns) c s fits served =
      let (s', read, served') = read_once fuel handle n c s fits.0 served in
      let (s'', rest) = read_bodies-take fuel handle ns (drop n c) s' fits.1 served' in
      let piece : Bytes = take n c in
      (
        s'',
        ap (λ a. then_read a (read_bodies fuel handle ns)) read
            ∙ ap (in_front (take (length piece) piece)) rest
            ∙ ap (λ t. some (t ++ take (sum ns) (drop n c), s''))
                (take-all (length piece) piece (omega arith))
            ∙ ap (λ t. some (t, s'')) (sym (take-add n (sum ns) c)),
      )

  -- A command that the node answers gets a handle, and reads of that handle give back the body of
  -- the answer, whole and in order, whatever the lengths of the buffers are, once they are as long
  -- as it together; no buffer is empty.
  pub command-read_bodies :
      (cmd b : Bytes) (status fuel : ℕ) (ns : List ℕ) (s : Contexts lib client)
      → inner_command lib client cmd
        ≡ done (response (record { status = status; body = some b; read_p = 0 }))
      → All IsLength ns
      → length b ≤ sum ns
      → (fd : ℕ) × (s' : Contexts lib client) × (s'' : Contexts lib client) × (command lib client
            cmd s
          ≡ (done (status, fd), s'))
        × (read_bodies fuel fd ns s' ≡ some (b, s''))
  unfolding command keep_ctx
  command-read_bodies cmd b status fuel ns s answered fits enough =
      let r : Response = record { status = status; body = some b; read_p = 0 } in
      let fd = (s.max_handle + 1) % u32_mod in
      let s' : Contexts lib client = record {
        ctx = insert fd (response r) s.ctx;
        max_handle = fd;
      } in
      let (s'', read) =
        read_bodies-take fuel fd ns b s' fits (r, insert-same fd (response r) s.ctx, refl) in
      (
        fd,
        s',
        s'',
        rw (answered, command) refl,
        read ∙ ap (λ t. some (t, s'')) (take-all (sum ns) b enough),
      )
