-- ===== src/Drivers/Ipfs/HttpRaw/Chunks.antt =====
-- What the reader of a chunked body makes of it.
use bls_runtime.Prelude.{
  ℕ, zero, suc, ◌<◌, ◌≡◌, refl, true, false, none, some, List, [], ◌∷◌, ◌++◌, append-nil, Bytes,
  ltb, leb, ◌==◌, length, All, arith, length-append, take-length, drop-length,
}
use bls_runtime.Prelude.Text.{starts_with}
use bls_runtime.Drivers.Ipfs.HttpRaw.{
  done, panics, complete, partial, Library, eol, skip_eol, read_more, take_chunk, bulk_round,
  read_bulks,
}

module _ (lib : Library) where
  -- A size line, which the parser reads as this size whatever stands behind it.
  abbrev pub Reads : Bytes → ℕ → Type 0
  Reads line n =
      (rest : Bytes) → lib.parse_chunk_size (line ++ rest) ≡ some (complete (length line) n)

  -- A chunk with its size line.
  abbrev pub Chunk : Type 0
  Chunk = Bytes × Bytes

  -- A body in chunks: each behind its size and in front of the end of its line, and the line of
  -- size 0 last.
  abbrev pub encode : List Chunk → Bytes → Bytes
  encode [] rest = rest
  encode ((line, c) ∷ cs) rest = line ++ (c ++ (eol ++ encode cs rest))

  abbrev pub fuel_for : List Chunk → ℕ
  fuel_for [] = 1
  fuel_for (c ∷ cs) = suc (fuel_for cs)

  abbrev pub contents : List Chunk → List Bytes
  contents [] = []
  contents (c ∷ cs) = c.1 ∷ contents cs

  skip_eol_lem : (rest : Bytes) → skip_eol lib (eol ++ rest) ≡ rest
  unfolding starts_with
  skip_eol_lem rest =
      let long : leb 2 (suc (suc (length rest))) ≡ true = ground arith in rw long refl

  -- A body in chunks that is there from the start, none of them empty, each behind a line that the
  -- parser reads as the length of the chunk, and with a line of size 0 last: it is read as its
  -- chunks, in order, whatever stands behind the last line; the socket is not asked.
  pub read_bulks-encode :
      (cs : List Chunk) (last rest : Bytes) (socket : lib.Socket)
      → Reads last 0
      → All (λ (c : Chunk). (0 < length c.1) × Reads c.0 (length c.1)) cs
      → read_bulks lib (fuel_for cs) (encode cs (last ++ rest)) socket
        ≡ some (done (contents cs), socket)
  unfolding read_bulks bulk_round take_chunk
  read_bulks-encode [] last rest socket ends h = rw (ends rest, bulk_round, take_chunk) refl
  read_bulks-encode ((line, c) ∷ cs) last rest socket ends ((filled, reads), h) =
      let others : Bytes = encode cs (last ++ rest) in
      let inner : Bytes = c ++ (eol ++ others) in
      let some_bytes : (length c == 0) ≡ false = ground (arith, filled) in
      let there : ltb (length inner) (length c) ≡ false =
        ground (arith, length-append c (eol ++ others)) in
      let later = read_bulks-encode cs last rest socket ends h in
      rw
        (
          reads inner,
          bulk_round,
          take_chunk,
          some_bytes,
          drop-length line inner,
          there,
          take-length c (eol ++ others),
          drop-length c (eol ++ others),
          skip_eol_lem others,
          later,
        )
        refl

  -- A chunk of which not all bytes are there yet makes the reader panic: the read for the missing
  -- ones asks for none.
  read_bulks-panics :
      (line : Bytes) (n fuel : ℕ) (b : Bytes) (socket : lib.Socket)
      → Reads line n
      → length b < n
      → read_bulks lib (suc fuel) (line ++ b) socket ≡ some (panics, socket)
  unfolding read_bulks bulk_round take_chunk
  read_bulks-panics line n fuel b socket reads short =
      let some_bytes : (n == 0) ≡ false = ground (arith, short) in
      let missing : ltb (length b) n ≡ true = ground (arith, short) in
      rw (reads b, bulk_round, take_chunk, some_bytes, drop-length line b, missing) refl

  -- Where the peer has closed and a size is not complete, the reader asks again and again: no number
  -- of rounds is enough.
  pub read_bulks-never_ends :
      (fuel : ℕ) (bulk : Bytes) (socket : lib.Socket)
      → lib.parse_chunk_size bulk ≡ some partial
      → lib.read_buf socket ≡ some ([], socket)
      → read_bulks lib fuel bulk socket ≡ none
  unfolding read_bulks bulk_round read_more
  read_bulks-never_ends zero bulk socket more closed = refl
  read_bulks-never_ends (suc fuel) bulk socket more closed =
      rw (more, bulk_round, closed, read_more, append-nil bulk)
        (read_bulks-never_ends fuel bulk socket more closed)
