-- ===== src/Modules/Call.antt =====
-- `InstanceCaller::call` on a machine that keeps to the conventions of its allocator.
use bls_runtime.Prelude.{
  ℕ, ◌+◌, ◌%◌, ◌≤◌, ◌≡◌, refl, ap, ◌∙◌, Bool, true, false, ◌&&◌, ◌||◌, if◌then◌else◌, List, [], ◌∷◌,
  none, some, ◌++◌, Bytes, arith, leb, ◌==◌, length, take, drop, u32_mod, length-append,
  length-take-le, length-drop, Bool-cases, Option-cases, inl, inr,
}
use bls_runtime.Modules.{
  McallError, no_error, alloc_error, mcall_error, Side, callee, Machine, MemBuf, min, read_range,
  write_range, copy_to_slice, copy_from_slice, copy_from, release, invoke, run_with, call,
}

write_range-fits :
    (m : Bytes) (start : ℕ) (from : Bytes)
    → start + length from ≤ length m
    → (d : Bytes) × (write_range m start from ≡ some d) × (length d ≡ length m)
unfolding write_range
write_range-fits m start from h =
    let fits : leb (start + length from) (length m) ≡ true = ground arith in
    (
      take start m ++ from ++ drop (start + length from) m,
      rw fits refl,
      omega (
        arith,
        length-append (take start m ++ from) (drop (start + length from) m),
        length-append (take start m) from,
        length-take-le start m (omega arith),
        length-drop (start + length from) m,
      ),
    )

-- A buffer is its pointer with its length.
abbrev pub Buffer : Type 0
Buffer = ℕ × ℕ

abbrev pub same : Buffer → Buffer → Bool
same (p, n) (q, k) = (p == q) && (n == k)

unfoldable pub is_held : Buffer → List Buffer → Bool
is_held b [] = false
is_held b (x ∷ xs) = same b x || is_held b xs

-- A buffer is taken out of those that are held, once.
unfoldable pub erase : Buffer → List Buffer → List Buffer
erase b [] = []
erase b (x ∷ xs) = let rest = erase b xs in if same b x then xs else x ∷ rest

same_refl : (b : Buffer) → same b b ≡ true
same_refl (p, n) = ground arith

same-eq : (a b : Buffer) → same a b ≡ true → a ≡ b
same-eq (p, n) (q, k) h =
    let pointer : p ≡ q = ground (arith, h) in
    let size : n ≡ k = ground (arith, h) in ap (λ x. (x, n)) pointer ∙ ap (λ x. (q, x)) size

-- The newest buffer is released, or the one below it.
erase-newest :
    (a : Buffer) (held : List Buffer) → (is_held a (a ∷ held) ≡ true) × (erase a (a ∷ held) ≡ held)
unfolding is_held erase
erase-newest a held = (rw (same_refl a, is_held) refl, rw (same_refl a, erase) refl)

erase-below :
    (a b : Buffer) (held : List Buffer)
    → (is_held a (b ∷ a ∷ held) ≡ true) × (erase a (b ∷ a ∷ held) ≡ b ∷ held)
unfolding is_held erase
erase-below a b held = elim (Bool-cases (same a b)) [
  | inl equal ↦
      (rw (equal, is_held) refl, rw (equal, erase) (ap (λ x. x ∷ held) (same-eq a b equal)))
  | inr other ↦ (rw (other, same_refl a, is_held) refl, rw (other, same_refl a, erase) refl)
]

-- The conventions, with the buffers that are allocated and not released: what is allocated stands
-- inside the memory, a release of a buffer that is held takes this one and no other, the function
-- leaves them as they are, and no memory shrinks. The two memories may be the same.
pub record IsSound (m : Machine) (held : m.State → List Buffer) : Type 0 where
  pub alloc_held :
      (n p : ℕ) (s : m.State) → (m.alloc n s).0 ≡ some p → held (m.alloc n s).1 ≡ (p, n) ∷ held s
  pub alloc_failed : (n : ℕ) (s : m.State) → (m.alloc n s).0 ≡ none → held (m.alloc n s).1 ≡ held s
  pub alloc_fits :
      (n p : ℕ) (s : m.State)
      → (m.alloc n s).0 ≡ some p
      → p + n ≤ length (m.data_of callee (m.alloc n s).1)
  pub alloc_grows :
      (n : ℕ) (s : m.State) (side : Side)
      → length (m.data_of side s) ≤ length (m.data_of side (m.alloc n s).1)
  pub dealloc_held :
      (p n : ℕ) (s : m.State)
      → is_held (p, n) (held s) ≡ true
      → held (m.dealloc p n s).1 ≡ erase (p, n) (held s)
  pub func_held : (p n q k : ℕ) (s : m.State) → held (m.func p n q k s).1 ≡ held s
  pub func_grows :
      (p n q k : ℕ) (s : m.State) (side : Side)
      → length (m.data_of side s) ≤ length (m.data_of side (m.func p n q k s).1)
  pub set_data_held : (side : Side) (d : Bytes) (s : m.State) → held (m.set_data side d s) ≡ held s
  pub set_data_length :
      (side other : Side) (d : Bytes) (s : m.State)
      → length d ≡ length (m.data_of side s)
      → length (m.data_of other (m.set_data side d s)) ≡ length (m.data_of other s)

module _ (m : Machine) (held : m.State → List Buffer) (laws : IsSound m held) where
  open m use {State, data_of, alloc, func}

  dealloc-newest :
      (p n : ℕ) (s : State) (rest : List Buffer)
      → held s ≡ (p, n) ∷ rest
      → held (m.dealloc p n s).1 ≡ rest
  dealloc-newest p n s rest e =
      let (there, gone) = erase-newest (p, n) rest in
      laws.dealloc_held p n s (ap (is_held (p, n)) e ∙ there) ∙ ap (erase (p, n)) e ∙ gone

  dealloc-below :
      (p n : ℕ) (b : Buffer) (s : State) (rest : List Buffer)
      → held s ≡ b ∷ (p, n) ∷ rest
      → held (m.dealloc p n s).1 ≡ b ∷ rest
  dealloc-below p n b s rest e =
      let (there, gone) = erase-below (p, n) b rest in
      laws.dealloc_held p n s (ap (is_held (p, n)) e ∙ there) ∙ ap (erase (p, n)) e ∙ gone

  abbrev Fits : MemBuf → State → Type 0
  Fits b s = b.buf + b.buf_len ≤ length (data_of b.mem s)

  copy_from_slice-Fits :
      (b : MemBuf) (from : Bytes) (s : State)
      → Fits b s
      → (s' : State) × (copy_from_slice m b from s ≡ some s')
        × (held s' ≡ held s)
        × ((side : Side) → length (data_of side s') ≡ length (data_of side s))
  unfolding copy_from_slice
  copy_from_slice-Fits b from s h =
      let cut = take (min b.buf_len (length from)) from in
      let short : min b.buf_len (length from) ≤ b.buf_len = ground arith in
      let n : length cut ≡ min b.buf_len (length from) =
        length-take-le (min b.buf_len (length from)) from (ground arith) in
      let (d, e, same) = write_range-fits (data_of b.mem s) b.buf cut (omega arith) in
      (
        m.set_data b.mem d s,
        rw (e, copy_from_slice) refl,
        laws.set_data_held b.mem d s,
        λ side. laws.set_data_length b.mem side d s same,
      )

  copy_to_slice-Fits :
      (b : MemBuf) (n : ℕ) (s : State)
      → Fits b s
      → n ≤ b.buf_len
      → (t : Bytes) × (copy_to_slice m b n s ≡ some t)
  unfolding copy_to_slice read_range
  copy_to_slice-Fits b n s h le =
      let t = take n (drop b.buf (data_of b.mem s)) in
      let whole : min b.buf_len n ≡ n = ground arith in
      let fits : leb (b.buf + n) (length (data_of b.mem s)) ≡ true = ground arith in
      let k : length t ≡ n =
        length-take-le n _ (omega (arith, length-drop b.buf (data_of b.mem s))) in
      let exact : (length t == n) ≡ true = ground arith in
      (t, rw (whole, fits, exact, copy_to_slice, read_range) refl)

  copy_from-Fits :
      (b other : MemBuf) (s : State)
      → Fits b s
      → Fits other s
      → (s' : State) × (copy_from m b other s ≡ some s') × (held s' ≡ held s)
  unfolding copy_from
  copy_from-Fits b other s h k =
      let (t, read) = copy_to_slice-Fits other (min b.buf_len other.buf_len) s k (ground arith) in
      let (s', wrote, same, _) = copy_from_slice-Fits b t s h in
      (s', rw (read, copy_from) wrote, same)

  -- What is left when the function has run: a result, and as many buffers as before.
  invoke-Fits :
      (ptr n result_ptr : ℕ) (b : MemBuf) (s : State)
      → Fits b s
      → Fits (record { mem = callee; buf = result_ptr; buf_len = b.buf_len }) s
      → (r : McallError × State) × (invoke m ptr n result_ptr b s ≡ some r) × (held r.1 ≡ held s)
  unfolding invoke
  invoke-Fits ptr n result_ptr b s h k =
      let out = m.func ptr n result_ptr b.buf_len s in
      let grows = laws.func_grows ptr n result_ptr b.buf_len s in
      let result : MemBuf = record { mem = callee; buf = result_ptr; buf_len = b.buf_len } in
      let (s', copied, same) =
        copy_from-Fits b result out.1 (omega (arith, grows b.mem)) (omega (arith, grows callee)) in
      let kept = laws.func_held ptr n result_ptr b.buf_len s in
      elim (Bool-cases out.0) [
        | inl ran ↦ ((no_error, s'), rw (ran, copied, invoke) refl, same ∙ kept)
        | inr failed ↦ ((mcall_error, out.1), rw (failed, invoke) refl, kept)
      ]

  run_with-Fits :
      (param : Bytes) (ptr result_ptr : ℕ) (b : MemBuf) (s : State) (rest : List Buffer)
      → held s ≡ (result_ptr, b.buf_len) ∷ (ptr, length param % u32_mod) ∷ rest
      → Fits b s
      → ptr + length param % u32_mod ≤ length (data_of callee s)
      → result_ptr + b.buf_len ≤ length (data_of callee s)
      → (r : McallError × State) × (run_with m param ptr result_ptr b s ≡ some r)
        × (held r.1 ≡ rest)
  unfolding run_with release
  run_with-Fits param ptr result_ptr b s rest both h k l =
      let n = length param % u32_mod in
      let (s1, wrote, same, sizes) =
        copy_from_slice-Fits (record { mem = callee; buf = ptr; buf_len = n }) param s k in
      let (r, ran, kept) =
        invoke-Fits ptr n result_ptr b s1 (omega (arith, sizes b.mem))
          (omega (arith, sizes callee)) in
      (
        release m result_ptr b.buf_len (release m ptr n r),
        rw (wrote, ran, run_with) refl,
        dealloc-newest result_ptr b.buf_len (m.dealloc ptr n r.1).1 rest
            (dealloc-below ptr n (result_ptr, b.buf_len) r.1 rest (kept ∙ same ∙ both)),
      )

  -- On a machine where an allocation adds its buffer to those that are held and stands inside the
  -- memory, a release takes the buffer that it is given, the function neither allocates nor
  -- releases, and no memory shrinks; and where the buffer of the caller lies inside its memory: a
  -- call returns, with an error code or with a result, and on every path exactly the buffers are
  -- held that were held before, so that each one that it allocated is released.
  pub call_releases :
      (param : Bytes) (b : MemBuf) (s : State)
      → b.buf + b.buf_len ≤ length (data_of b.mem s)
      → (r : McallError × State) × (call m param b s ≡ some r) × (held r.1 ≡ held s)
  unfolding call
  call_releases param b s h =
      let n = length param % u32_mod in
      let s1 = (alloc n s).1 in
      let s2 = (alloc b.buf_len s1).1 in
      elim (Option-cases (alloc n s).0) [
        | inl none1 ↦ ((alloc_error, s1), rw (none1, call) refl, laws.alloc_failed n s none1)
        | inr (ptr, some1) ↦
            let held1 = laws.alloc_held n ptr s some1 in
            elim (Option-cases (alloc b.buf_len s1).0) [
              | inl none2 ↦ (
                (alloc_error, (m.dealloc ptr n s2).1),
                rw (some1, none2, call) refl,
                dealloc-newest ptr n s2 (held s) (laws.alloc_failed b.buf_len s1 none2 ∙ held1),
              )
              | inr (result_ptr, some2) ↦
                  let (r, ran, kept) =
                    run_with-Fits param ptr result_ptr b s2 (held s)
                      (laws.alloc_held b.buf_len result_ptr s1 some2
                        ∙ ap (λ l. (result_ptr, b.buf_len) ∷ l) held1)
                      (omega
                        (arith, laws.alloc_grows n s b.mem, laws.alloc_grows b.buf_len s1 b.mem))
                      (omega (
                        arith,
                        laws.alloc_fits n ptr s some1,
                        laws.alloc_grows b.buf_len s1 callee,
                      ))
                      (laws.alloc_fits b.buf_len result_ptr s1 some2) in
                  (r, rw (some1, some2, call) ran, kept)
            ]
      ]
