-- ===== src/Drivers/Cgi/Reads.antt =====
-- What a guest reads of a listing, and what a read does to the handle of a process.
use bls_runtime.Prelude.{
  ℕ, ◌+◌, ◌-◌, ◌≤◌, ◌≡◌, refl, ap, sym, ◌∙◌, false, none, some, List, [], ◌∷◌, ◌++◌, Bytes, leb,
  ◌==◌, if◌then◌else◌, length, take, drop, arith, length-drop, take-all, take-add, drop-add,
  Bool-cases, inl, inr, nat_same,
}
use bls_runtime.Prelude.Assoc.{
  lookup, remove, lookup-insert, lookup-remove, has_key, has_key-lookup, nat_eq,
}
use bls_runtime.Drivers.Cgi.{
  invalid_handle, Result, ok, err, System, CgiProcess, CgiCtx, process, directory_list,
  ok-injective, Contexts, put, increase_handle, cgi_directory_list_exec, cgi_directory_list_read,
  close,
}

module _ (sys : System) where
  -- A piece in front of what later reads give, and the reads behind a read.
  abbrev pub in_front : Bytes → Result Bytes × Contexts sys → Result Bytes × Contexts sys
  in_front piece (err e, s) = (err e, s)
  in_front piece (ok rest, s) = (ok (piece ++ rest), s)

  abbrev pub then_read :
      Result Bytes × Contexts sys
      → (Contexts sys → Result Bytes × Contexts sys)
      → Result Bytes × Contexts sys
  then_read (err e, s) reads = (err e, s)
  then_read (ok piece, s) reads = in_front piece (reads s)

  -- The reads of a handle with buffers of these lengths, and all that they give.
  unfoldable pub read_all : ℕ → List ℕ → Contexts sys → Result Bytes × Contexts sys
  unfolding cgi_directory_list_read
  read_all handle [] s = (ok [], s)
  read_all handle (n ∷ ns) s =
      then_read (cgi_directory_list_read sys handle n s) (read_all handle ns)

  abbrev pub sum : List ℕ → ℕ
  sum [] = 0
  sum (n ∷ ns) = n + sum ns

  -- One read of a listing.
  read_piece :
      (handle n : ℕ) (vals : Bytes) (pos : ℕ) (s : Contexts sys)
      → lookup handle s.ctx ≡ some (directory_list vals pos)
      → (k : ℕ) × (s' : Contexts sys) × (cgi_directory_list_read sys handle n s
          ≡ (ok (take k (drop pos vals)), s'))
        × (k ≡ (if leb (length vals - pos) n then length vals - pos else n))
        × (lookup handle s'.ctx ≡ some (directory_list vals (pos + k)))
  unfolding cgi_directory_list_read put lookup
  read_piece handle n vals pos s h = elim (Bool-cases (length vals - pos == 0)) [
    | inl done ↦
        let c : CgiCtx sys = directory_list vals pos in
        let nothing : 0 ≡ (if leb (length vals - pos) n then length vals - pos else n) =
          ground (arith, done) in
        let same : pos ≡ pos + 0 = omega arith in
        (
          0,
          put sys handle c (record s { ctx = remove handle s.ctx }),
          rw (h, done, cgi_directory_list_read) refl,
          nothing,
          there handle c s ∙ ap (λ p. some (directory_list vals p)) same,
        )
    | inr more ↦
        let k = if leb (length vals - pos) n then length vals - pos else n in
        let c : CgiCtx sys = directory_list vals (pos + k) in
        (
          k,
          put sys handle c (record s { ctx = remove handle s.ctx }),
          rw (h, more, cgi_directory_list_read) refl,
          refl,
          there handle c s,
        )
  ]
    where
      there :
          (handle : ℕ) (c : CgiCtx sys) (s : Contexts sys)
          → lookup handle (put sys handle c (record s { ctx = remove handle s.ctx })).ctx ≡ some c
      there handle c s =
          lookup-insert handle handle c (remove handle s.ctx)
          ∙ ap (λ b. if b then some c else lookup handle (remove handle s.ctx)) (nat_same handle)

  -- Two pieces in a row, the first cut where the listing ends.
  pieces :
      {A : Type 0} (n m k : ℕ) (xs : List A)
      → k ≡ (if leb (length xs) n then length xs else n)
      → take k xs ++ take m (drop k xs) ≡ take (n + m) xs
  pieces n m k xs h = elim (Bool-cases (leb (length xs) n)) [
    | inl all ↦
        let whole : k ≡ length xs = ground (arith, h, all) in
        let le : length xs ≤ n = ground (arith, all) in
        sym (take-add k m xs)
        ∙ take-all (k + m) xs (omega (arith, whole))
        ∙ sym (take-all (n + m) xs (omega (arith, le)))
    | inr part ↦
        let same : k ≡ n = ground (arith, h, part) in
        sym (take-add k m xs) ∙ ap (λ j. take (j + m) xs) same
  ]

  read_all-step :
      (handle n : ℕ) (ns : List ℕ) (piece rest : Bytes) (s s' s'' : Contexts sys)
      → cgi_directory_list_read sys handle n s ≡ (ok piece, s')
      → read_all handle ns s' ≡ (ok rest, s'')
      → read_all handle (n ∷ ns) s ≡ (ok (piece ++ rest), s'')
  unfolding read_all
  read_all-step handle n ns piece rest s s' s'' first later =
      ap (λ r. then_read r (read_all handle ns)) first ∙ ap (in_front piece) later

  read_all-listing :
      (handle : ℕ) (ns : List ℕ) (vals : Bytes) (pos : ℕ) (s : Contexts sys)
      → lookup handle s.ctx ≡ some (directory_list vals pos)
      → (s' : Contexts sys) × (read_all handle ns s ≡ (ok (take (sum ns) (drop pos vals)), s'))
  unfolding read_all
  read_all-listing handle [] vals pos s h = (s, refl)
  read_all-listing handle (n ∷ ns) vals pos s h =
      let (k, s', read, cut, there) = read_piece handle n vals pos s h in
      let (s'', rest) = read_all-listing handle ns vals (pos + k) s' there in
      let size : k ≡ (if leb (length (drop pos vals)) n then length (drop pos vals) else n) =
        rw (length-drop pos vals) cut in
      let joined : take k (drop pos vals) ++ take (sum ns) (drop (pos + k) vals)
          ≡ take (n + sum ns) (drop pos vals) =
        rw (drop-add pos k vals) (pieces n (sum ns) k (drop pos vals) size) in
      (
        s'',
        read_all-step handle n ns (take k (drop pos vals)) (take (sum ns) (drop (pos + k) vals)) s
              s' s'' read rest
            ∙ ap (λ b. (ok b, s'')) joined,
      )

  -- A listing of a directory is read back whole, whatever the lengths of the buffers are, as soon
  -- as they are as long as the listing together; the handle is the one that the listing gave.
  pub listing-read_all :
      (rs : Bytes) (handle : ℕ) (ns : List ℕ) (s s' : Contexts sys)
      → cgi_directory_list_exec sys (ok rs) s ≡ (ok handle, s')
      → length rs ≤ sum ns
      → (s'' : Contexts sys) × (read_all handle ns s' ≡ (ok rs, s''))
  unfolding cgi_directory_list_exec increase_handle put
  listing-read_all rs handle ns s s' h enough =
      let state = ap (λ (x : Result ℕ × Contexts sys). x.1) h in
      let same = ok-injective _ _ (ap (λ (x : Result ℕ × Contexts sys). x.0) h) in
      let there : lookup handle s'.ctx ≡ some (directory_list rs 0) =
        ap (λ (x : Contexts sys). lookup handle x.ctx) (sym state)
        ∙ lookup-insert (increase_handle sys s).0 handle (directory_list rs 0) s.ctx
        ∙ ap (λ b. if b then some (directory_list rs 0) else lookup handle s.ctx)
            (ap (λ k. k == handle) same ∙ nat_same handle) in
      let (s'', read) = read_all-listing handle ns rs 0 s' there in
      (s'', read ∙ ap (λ b. (ok b, s'')) (take-all (sum ns) rs enough))

  -- A guest that reads the handle of a process as a listing is told that the handle is not valid,
  -- and the process is gone: no later call finds the handle. Every other handle stays.
  pub list_read-drops :
      (handle n : ℕ) (p : CgiProcess sys) (s : Contexts sys)
      → lookup handle s.ctx ≡ some (process p)
      → (s' : Contexts sys) × (cgi_directory_list_read sys handle n s ≡ (err invalid_handle, s'))
        × (lookup handle s'.ctx ≡ none)
        × ((close sys handle s').0 ≡ err invalid_handle)
        × ((other : ℕ) → (handle == other) ≡ false → lookup other s'.ctx ≡ lookup other s.ctx)
  unfolding cgi_directory_list_read close
  list_read-drops handle n p s h =
      let gone : lookup handle (remove handle s.ctx) ≡ none =
        lookup-remove handle handle s.ctx
        ∙ ap (λ b. if b then none else lookup handle s.ctx) (nat_same handle) in
      let no_key : has_key handle (remove handle s.ctx) ≡ false =
        has_key-lookup handle (remove handle s.ctx) ∙ rw gone refl in
      (
        record s { ctx = remove handle s.ctx },
        rw (h, cgi_directory_list_read) refl,
        gone,
        rw (no_key, close) refl,
        λ other differs.
            lookup-remove handle other s.ctx
            ∙ ap (λ b. if b then none else lookup other s.ctx) differs,
      )
