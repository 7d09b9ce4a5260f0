-- ===== src/Multiaddr/Layout.antt =====
-- Where the indicators of a parsed address stand, and what bytes they hold.

use bls_runtime.Prelude.{
  ℕ, ◌+◌, ◌-◌, ◌≤◌, ◌<◌, ◌≡◌, refl, ◌∙◌, Bool, true, not, ◌&&◌, List, [], ◌∷◌, ◌++◌, Bytes, arith,
  length, All, All-append, append_assoc, length-append, ◌==◌, append-nil, if_intro, ltb,
}
use bls_runtime.Multiaddr.{
  Result, ok, err, is_addr_token, Indicator, MultiAddr, slice, indicator, Status, idle,
  indicator_begin, Cursor, start, parse_token, parse_step, parse_loop, finish, parse, is_empty,
  is_schema_end,
}
use bls_runtime.Multiaddr.Slices.{slice_add_one}

-- A byte that an indicator may hold: a token that is no separator.
abbrev pub is_segment_byte : ℕ → Bool
is_segment_byte c = is_addr_token c && not (c == b'/')

-- The indicators stand in order from `lo` on, apart from one another, and end before `limit`; each
-- is the slice between its offsets, which is not empty and holds segment bytes only.
abbrev pub IsLaidOut : Bytes → ℕ → List Indicator → ℕ → Type 0
IsLaidOut a lo [] limit = Unit
IsLaidOut a lo (p ∷ ps) limit =
    (lo ≤ p.begin)
    × (p.begin < p.stop)
    × (p.stop < limit)
    × (p.val ≡ slice a p.begin p.stop)
    × All (λ c. is_segment_byte c ≡ true) p.val
    × IsLaidOut a (p.stop + 1) ps limit

IsLaidOut-le :
    (a : Bytes) (lo : ℕ) (ps : List Indicator) (l m : ℕ)
    → l ≤ m
    → IsLaidOut a lo ps l
    → IsLaidOut a lo ps m
IsLaidOut-le a lo [] l m le h = tt
IsLaidOut-le a lo (p ∷ ps) l m le (h, i, j, k, g, t) =
    (h, i, omega arith, k, g, IsLaidOut-le a (p.stop + 1) ps l m le t)

-- One more indicator at the end.
IsLaidOut-concat :
    (a : Bytes) (lo : ℕ) (ps : List Indicator) (b e : ℕ)
    → lo ≤ b
    → b < e
    → All (λ c. is_segment_byte c ≡ true) (slice a b e)
    → IsLaidOut a lo ps b
    → IsLaidOut a lo (ps ++ (indicator a b e ∷ [])) (e + 1)
IsLaidOut-concat a lo [] b e h lt g t = (h, lt, omega arith, refl, g, tt)
IsLaidOut-concat a lo (p ∷ ps) b e h lt g (i, j, k, m, n, t) =
    (i, j, omega arith, m, n, IsLaidOut-concat a (p.stop + 1) ps b e (omega arith) lt g t)

-- What the loop knows in front of the byte at `off`.
abbrev IsOpen : Bytes → ℕ → Cursor → Status → Type 0
IsOpen a off s idle = IsLaidOut a 0 s.paths off
IsOpen a off s (indicator_begin b) =
    IsLaidOut a 0 s.paths b
    × (b < off)
    × (s.skip ≡ 0)
    × All (λ c. is_segment_byte c ≡ true) (slice a b off)

abbrev Inv : Bytes → ℕ → Result Cursor → Type 0
Inv a off (ok s) = IsOpen a off s s.token
Inv a off (err e) = Unit

module _ (pre : Bytes) (c : ℕ) (rest : Bytes) where
  skip-Inv :
      (s : Cursor) (t : Status)
      → s.token ≡ t
      → 0 < s.skip
      → IsOpen (pre ++ c ∷ rest) (length pre) s t
      → Inv (pre ++ c ∷ rest) (length pre + 1) (ok (record s { skip = s.skip - 1 }))
  skip-Inv s idle e p h =
      rw e (IsLaidOut-le _ 0 s.paths (length pre) (length pre + 1) (omega arith) h)
  skip-Inv s (indicator_begin b) e p h = absurd (omega arith)

  opened :
      (b : ℕ)
      → b ≤ length pre
      → is_segment_byte c ≡ true
      → All (λ d. is_segment_byte d ≡ true) (slice (pre ++ c ∷ rest) b (length pre))
      → All (λ d. is_segment_byte d ≡ true) (slice (pre ++ c ∷ rest) b (length pre + 1))
  opened b le g h =
      rw (slice_add_one pre c rest b le) (All-append (λ d. is_segment_byte d ≡ true) _ _ h (g, tt))

  singleton_slice : slice (pre ++ c ∷ rest) (length pre) (length pre + 1) ≡ c ∷ []
  singleton_slice =
      let d : length pre - length pre ≡ 0 = omega arith in
      slice_add_one pre c rest (length pre) (omega arith) ∙ rw d refl

  parse_token-Inv :
      (s : Cursor) (t : Status)
      → s.token ≡ t
      → s.skip ≡ 0
      → is_addr_token c ≡ true
      → IsOpen (pre ++ c ∷ rest) (length pre) s t
      → Inv
          (pre ++ c ∷ rest)
          (length pre + 1)
          (parse_token (pre ++ c ∷ rest) (length pre) c rest s t)
  unfolding parse_token
  parse_token-Inv s idle e z g h =
      if_intro (Inv (pre ++ c ∷ rest) (length pre + 1)) (c == b'/')
        (λ slash.
          if_intro (Inv (pre ++ c ∷ rest) (length pre + 1)) (is_empty s.paths) (λ _. tt)
            (λ _. rw e (IsLaidOut-le _ 0 s.paths (length pre) (length pre + 1) (omega arith) h)))
        (λ other. (h, omega arith, z, rw singleton_slice (rw (g, other) refl, tt)))
  parse_token-Inv s (indicator_begin b) e z g (h, lt, _, o) =
      let I = Inv (pre ++ c ∷ rest) (length pre + 1) in
      let laid = IsLaidOut-concat (pre ++ c ∷ rest) 0 s.paths b (length pre) (omega arith) lt o h in
      if_intro I (c == b':' && is_empty s.paths)
        (λ _. if_intro I (is_schema_end rest) (λ _. laid) (λ _. tt))
        (λ _.
          if_intro I (c == b'/') (λ _. laid)
            (λ other. rw e (h, omega arith, z, opened b (omega arith) (rw (g, other) refl) o)))

  parse_step-Inv :
      (s : Cursor)
      → IsOpen (pre ++ c ∷ rest) (length pre) s s.token
      → Inv (pre ++ c ∷ rest) (length pre + 1) (parse_step (pre ++ c ∷ rest) (length pre) c rest s)
  unfolding parse_step
  parse_step-Inv s h =
      let I = Inv (pre ++ c ∷ rest) (length pre + 1) in
      if_intro I (ltb 0 s.skip) (λ more. skip-Inv s s.token refl (ground arith) h)
        (λ none_left.
          if_intro I (not (is_addr_token c)) (λ _. tt)
            (λ g. parse_token-Inv s s.token refl (ground arith) (ground arith) h))

-- the rest of the loop, from what one round returns
continue-Inv :
    (a : Bytes) (off : ℕ) (rest : Bytes) (r : Result Cursor)
    → ((s : Cursor) → IsOpen a off s s.token → Inv a (length a) (parse_loop a off rest s))
    → Inv a off r
    → Inv a (length a) (elim r [ ok s ↦ parse_loop a off rest s | err e ↦ err e ])
continue-Inv a off rest (ok s) later i = later s i
continue-Inv a off rest (err e) later i = tt

parse_loop-Inv :
    (a : Bytes) (off : ℕ) (rest pre : Bytes) (s : Cursor)
    → a ≡ pre ++ rest
    → off ≡ length pre
    → IsOpen a off s s.token
    → Inv a (length a) (parse_loop a off rest s)
unfolding parse_loop
parse_loop-Inv a off [] pre s p q h = let e : off ≡ length a = q ∙ rw p (rw append-nil) in rw e at h
parse_loop-Inv a off (c ∷ rest) pre s p q h =
    continue-Inv a (off + 1) rest (parse_step a off c rest s)
      (λ s' i.
        parse_loop-Inv a (off + 1) rest (pre ++ c ∷ []) s' (p ∙ rw append_assoc)
          (omega (arith, length-append pre (c ∷ []))) i)
      (rw (p, q) (parse_step-Inv pre c rest s (rw (p, q) at h)))

finish-IsLaidOut :
    (a : Bytes) (s : Cursor) (t : Status)
    → IsOpen a (length a) s t
    → IsLaidOut a 0 (finish a s t).paths (length a + 1)
unfolding finish
finish-IsLaidOut a s idle h = IsLaidOut-le a 0 s.paths _ _ (omega arith) h
finish-IsLaidOut a s (indicator_begin b) (h, lt, z, o) =
    IsLaidOut-concat a 0 s.paths b (length a) (omega arith) lt o h

-- Whatever address `parse` accepts, its indicators stand in order and apart from one another inside
-- the address, none is empty, each holds the bytes between its offsets, and these are tokens
-- other than `/`. So no slice of the source is out of range.
pub parse-IsLaidOut :
    (a : Bytes) (m : MultiAddr) → parse a ≡ ok m → IsLaidOut a 0 m.paths (length a + 1)
unfolding parse
parse-IsLaidOut a m h = go (parse_loop a 0 a start) (parse_loop-Inv a 0 a [] start refl refl tt) h
  where
    go :
        (r : Result Cursor)
        → Inv a (length a) r
        → (elim r [ ok s ↦ ok (finish a s s.token) | err e ↦ err e ]) ≡ ok m
        → IsLaidOut a 0 m.paths (length a + 1)
    go (ok s) i e = let f : finish a s s.token ≡ m = cc in rw f at (finish-IsLaidOut a s s.token i)
    go (err _) i e = cc
