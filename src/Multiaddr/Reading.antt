-- ===== src/Multiaddr/Reading.antt =====
-- Parsing an address that is written from a schema and segments. Each `run` lemma takes the loop
-- over one piece of the text, with any `rest` behind it.
use mathlib.Core.List.{map-append}
use native.Mathlib.Nat.{zero-add}
use bls_runtime.Prelude.{
  ℕ, ◌+◌, ◌≡◌, ◌≢◌, refl, sym, ap, ◌∙◌, Bool, true, not, ◌&&◌, List, [], ◌∷◌, ◌++◌, map, Bytes,
  arith, length, All, append_assoc, length-append, append-nil, ◌==◌,
}
use bls_runtime.Multiaddr.{
  Result, ok, err, Indicator, MultiAddr, slice, indicator, Status, idle, indicator_begin, Cursor,
  start, parse_loop, finish, parse, is_empty,
}
use bls_runtime.Multiaddr.Slices.{slice_middle}
use bls_runtime.Multiaddr.Layout.{is_segment_byte}

abbrev pub IsSegment : Bytes → Type 0
IsSegment v = All (λ c. is_segment_byte c ≡ true) v × (v ≢ [])

-- A schema holds no `:` either.
abbrev pub is_schema_byte : ℕ → Bool
is_schema_byte c = is_segment_byte c && not (c == b':')

abbrev pub IsSchema : Bytes → Type 0
IsSchema v = All (λ c. is_schema_byte c ≡ true) v × (v ≢ [])

-- The segments behind the schema, with `/` between them.
abbrev pub join : List Bytes → Bytes
join [] = []
join (v ∷ []) = v
join (v ∷ w ∷ vs) = v ++ (b'/' ∷ join (w ∷ vs))

abbrev pub url : Bytes → List Bytes → Bytes
url sch segments = sch ++ (b':' ∷ b'/' ∷ b'/' ∷ join segments)

abbrev pub values : MultiAddr → List Bytes
values m = map (λ (p : Indicator). p.val) m.paths

abbrev cursor : Status → List Indicator → Cursor
cursor t ps = record { token = t; paths = ps; skip = 0 }

-- a byte that an open indicator takes
abbrev continues : List Indicator → ℕ → Bool
continues ps c = is_segment_byte c && not (is_empty ps && c == b':')

module _ (a : Bytes) (ps : List Indicator) where
  run_byte :
      (off b c : ℕ) (rest : Bytes)
      → continues ps c ≡ true
      → parse_loop a off (c ∷ rest) (cursor (indicator_begin b) ps)
        ≡ parse_loop a (off + 1) rest (cursor (indicator_begin b) ps)
  unfolding parse_loop
  run_byte off b c rest h = ground arith

  run_bytes :
      (v : Bytes) (off b : ℕ) (rest : Bytes)
      → All (λ c. continues ps c ≡ true) v
      → parse_loop a off (v ++ rest) (cursor (indicator_begin b) ps)
        ≡ parse_loop a (off + length v) rest (cursor (indicator_begin b) ps)
  run_bytes [] off b rest h = let e : off + 0 ≡ off = omega arith in rw e refl
  run_bytes (c ∷ v) off b rest h =
      let e : off + 1 + length v ≡ off + length (c ∷ v) = omega arith in
      run_byte off b c (v ++ rest) h.0 ∙ run_bytes v (off + 1) b rest h.1 ∙ rw e refl

  run_first :
      (off c : ℕ) (rest : Bytes)
      → is_segment_byte c ≡ true
      → parse_loop a off (c ∷ rest) (cursor idle ps)
        ≡ parse_loop a (off + 1) rest (cursor (indicator_begin off) ps)
  unfolding parse_loop
  run_first off c rest h = ground arith

  run_slash :
      (off b : ℕ) (rest : Bytes)
      → parse_loop a off (b'/' ∷ rest) (cursor (indicator_begin b) ps)
        ≡ parse_loop a (off + 1) rest (cursor idle (ps ++ (indicator a b off ∷ [])))
  unfolding parse_loop
  run_slash off b rest = ground arith

  run_word :
      (v : Bytes) (off : ℕ) (rest : Bytes)
      → All (λ c. continues ps c ≡ true) v
      → v ≢ []
      → parse_loop a off (v ++ rest) (cursor idle ps)
        ≡ parse_loop a (off + length v) rest (cursor (indicator_begin off) ps)
  run_word [] off rest h ne = absurd (ne refl)
  run_word (c ∷ v) off rest h ne =
      let e : off + 1 + length v ≡ off + length (c ∷ v) = omega arith in
      run_first off c (v ++ rest) (ground (arith, h.0))
      ∙ run_bytes v (off + 1) off rest h.1
      ∙ rw e refl

run_schema_end :
    (a : Bytes) (off b : ℕ) (rest : Bytes)
    → parse_loop a off (b':' ∷ b'/' ∷ b'/' ∷ rest) (cursor (indicator_begin b) [])
      ≡ parse_loop a (off + 1 + 1 + 1) rest (cursor idle (indicator a b off ∷ []))
unfolding parse_loop
run_schema_end a off b rest = refl

-- what `parse` makes of the state behind the loop
abbrev ended : Bytes → Result Cursor → Result MultiAddr
ended a r = elim r [ ok s ↦ ok (finish a s s.token) | err e ↦ err e ]

abbrev Reads : Bytes → List Bytes → Result MultiAddr → Type 0
Reads a vs r = (m : MultiAddr) × (r ≡ ok m) × (values m ≡ vs)

segment_continues :
    (p : Indicator) (ps : List Indicator) (v : Bytes)
    → All (λ c. is_segment_byte c ≡ true) v
    → All (λ c. continues (p ∷ ps) c ≡ true) v
unfolding is_empty
segment_continues p ps [] h = tt
segment_continues p ps (c ∷ v) h = (ground (arith, h.0), segment_continues p ps v h.1)

schema_continues :
    (v : Bytes) → All (λ c. is_schema_byte c ≡ true) v → All (λ c. continues [] c ≡ true) v
unfolding is_empty
schema_continues [] h = tt
schema_continues (c ∷ v) h = (ground (arith, h.0), schema_continues v h.1)

values-concat :
    (ps : List Indicator) (a : Bytes) (b e : ℕ) (v : Bytes)
    → slice a b e ≡ v
    → map (λ (p : Indicator). p.val) (ps ++ (indicator a b e ∷ []))
      ≡ map (λ (p : Indicator). p.val) ps ++ (v ∷ [])
values-concat ps a b e v h = map-append _ ps _ ∙ rw h refl

run_end : (a : Bytes) (off : ℕ) (s : Cursor) → parse_loop a off [] s ≡ ok s
unfolding parse_loop
run_end a off s = refl

word_slice :
    (a pre v rest : Bytes) (off : ℕ)
    → a ≡ pre ++ (v ++ rest)
    → off ≡ length pre
    → slice a off (off + length v) ≡ v
word_slice a pre v rest off e q =
    rw e (slice_middle pre v rest off (off + length v) q (omega arith))

-- The loop over the segments, from a state that has read the schema.
run_join :
    (vs : List Bytes) (a : Bytes) (off : ℕ) (pre : Bytes) (p : Indicator) (ps : List Indicator)
    → a ≡ pre ++ join vs
    → off ≡ length pre
    → All IsSegment vs
    → Reads a
        (map (λ (q : Indicator). q.val) (p ∷ ps) ++ vs)
        (ended a (parse_loop a off (join vs) (cursor idle (p ∷ ps))))
unfolding finish
run_join [] a off pre p ps e q h = (record { paths = p ∷ ps }, rw run_end refl, sym (append-nil _))
run_join (v ∷ []) a off pre p ps e q (h, _) =
    let word = run_word a (p ∷ ps) v off [] (segment_continues p ps v h.0) h.1 in
    let read = rw append-nil at word in
    let fits : length a ≡ off + length v = omega (arith, ap length e, length-append pre v) in
    (
      record { paths = (p ∷ ps) ++ (indicator a off (length a) ∷ []) },
      rw (read, run_end) refl,
      values-concat (p ∷ ps) a off (length a) v
          (rw fits (word_slice a pre v [] off (rw append-nil e) q)),
    )
run_join (v ∷ w ∷ vs) a off pre p ps e q (h, t) =
    let rest = join (w ∷ vs) in
    let stop = off + length v in
    let qs = ps ++ (indicator a off stop ∷ []) in
    let (m, parsed, same) =
      run_join (w ∷ vs) a (stop + 1) (pre ++ (v ++ (b'/' ∷ []))) p qs
        (e ∙ rw (append_assoc, append_assoc) refl)
        (omega (arith, length-append pre (v ++ (b'/' ∷ [])), length-append v (b'/' ∷ []))) t in
    (
      m,
      rw (run_word a (p ∷ ps) v off (b'/' ∷ rest) (segment_continues p ps v h.0) h.1, run_slash)
          parsed,
      same
          ∙ ap (λ l. l ++ (w ∷ vs))
              (values-concat (p ∷ ps) a off stop v (word_slice a pre v (b'/' ∷ rest) off e q))
          ∙ append_assoc (map (λ (x : Indicator). x.val) (p ∷ ps)) (v ∷ []) (w ∷ vs),
    )

parse-ended : (a : Bytes) → parse a ≡ ended a (parse_loop a 0 a start)
unfolding parse
parse-ended a = refl

-- A schema and segments that are written as an address are what `parse` reads back, for every
-- number of segments: the indicators hold the schema and then the segments, in order.
pub parse-url :
    (sch : Bytes) (vs : List Bytes)
    → IsSchema sch
    → All IsSegment vs
    → Reads (url sch vs) (sch ∷ vs) (parse (url sch vs))
parse-url sch vs hs h =
    let a = url sch vs in
    let n = length sch in
    let tail = b':' ∷ b'/' ∷ b'/' ∷ join vs in
    let (m, parsed, same) =
      run_join vs a (n + 1 + 1 + 1) (sch ++ (b':' ∷ b'/' ∷ b'/' ∷ [])) (indicator a 0 n) []
        (rw append_assoc refl) (omega (arith, length-append sch (b':' ∷ b'/' ∷ b'/' ∷ []))) h in
    (
      m,
      parse-ended a
          ∙ rw (run_word a [] sch 0 tail (schema_continues sch hs.0) hs.1, zero-add, run_schema_end)
              parsed,
      same ∙ ap (λ v. v ∷ vs) (slice_middle [] sch tail 0 n refl (omega arith)),
    )
