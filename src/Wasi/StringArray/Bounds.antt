-- ===== src/Wasi/StringArray/Bounds.antt =====
-- Whatever is pushed, the two sizes that the guest is told are exact.
use bls_runtime.Prelude.{
  ◌+◌, ◌≤◌, ◌≡◌, refl, List, [], ◌∷◌, ◌++◌, Bytes, arith, length, length-append, u32_max,
  append-nil, append_assoc, ◌↔◌, ◌∙◌,
}
use bls_runtime.Wasi.StringArray.{
  StringArray, Pushed, pushed, refused, new, total, number_elements, cumulative_size, push,
}

pub record IsValid (s : StringArray) : Type 0 where
  pub few : length s.elems ≤ u32_max
  pub short : total s.elems ≤ u32_max

total-concat : (es : List Bytes) (e : Bytes) → total (es ++ (e ∷ [])) ≡ total es + length e + 1
total-concat [] e = omega arith
total-concat (x ∷ es) e = omega (arith, total-concat es e)

-- The sizes told to the guest are those of the array: the casts to `u32` lose nothing.
pub sizes_exact :
    {s : StringArray}
    → IsValid s
    → (number_elements s ≡ length s.elems) × (cumulative_size s ≡ total s.elems)
unfolding number_elements cumulative_size
sizes_exact v = omega arith

push-IsValid : {s t : StringArray} (e : Bytes) → IsValid s → push e s ≡ pushed t → IsValid t
unfolding push
push-IsValid {s} e v h = ground (arith, total-concat s.elems e, length-append s.elems (e ∷ []))

-- Pushing all elements of a list in turn, up to the first that is refused.
unfoldable pub push_all : List Bytes → StringArray → Pushed
push_all [] s = pushed s
push_all (e ∷ es) s = elim (push e s) [ pushed t ↦ push_all es t | refused why ↦ refused why ]

length-le-total : (es : List Bytes) → length es ≤ total es
length-le-total [] = omega arith
length-le-total (e ∷ es) = omega (arith, length-le-total es)

total-append : (xs ys : List Bytes) → total (xs ++ ys) ≡ total xs + total ys
total-append [] ys = omega arith
total-append (x ∷ xs) ys = omega (arith, total-append xs ys)

push_fits :
    (e : Bytes) (s : StringArray)
    → total (s.elems ++ (e ∷ [])) ≤ u32_max
    → push e s ≡ pushed (record { elems = s.elems ++ (e ∷ []) })
unfolding push
push_fits e s h = ground (arith, total-concat s.elems e, length-le-total s.elems)

push-elems : (s t : StringArray) (e : Bytes) → push e s ≡ pushed t → t.elems ≡ s.elems ++ (e ∷ [])
unfolding push
push-elems s t e h = ground arith

-- the first push of a run that succeeds
first_pushed :
    (es : List Bytes) (r : Pushed) {t : StringArray}
    → (elim r [ pushed n ↦ push_all es n | refused why ↦ refused why ]) ≡ pushed t
    → (n : StringArray) × (r ≡ pushed n) × (push_all es n ≡ pushed t)
first_pushed es (pushed n) h = (n, refl, h)
first_pushed es (refused why) h = cc

push_all_fits :
    (es : List Bytes) (s : StringArray)
    → total (s.elems ++ es) ≤ u32_max
    → push_all es s ≡ pushed (record { elems = s.elems ++ es })
unfolding push_all
push_all_fits [] s h = rw append-nil refl
push_all_fits (e ∷ es) s h =
    let next : StringArray = record { elems = s.elems ++ (e ∷ []) } in
    let whole : next.elems ++ es ≡ s.elems ++ e ∷ es = append_assoc s.elems (e ∷ []) es in
    rw
      (
        push_all,
        push_fits e s (omega (arith, total-append s.elems (e ∷ es), total-append s.elems (e ∷ []))),
        push_all_fits es next (rw whole h),
        whole,
      )
      refl

push_all-elems :
    (es : List Bytes) (s t : StringArray)
    → IsValid s
    → push_all es s ≡ pushed t
    → (t.elems ≡ s.elems ++ es) × IsValid t
unfolding push_all
push_all-elems [] s t v h = let e : s ≡ t = cc in (rw append-nil (rw e refl), rw e at v)
push_all-elems (e ∷ es) s t v h =
    let (n, first, later) = first_pushed es (push e s) h in
    let (same, valid) = push_all-elems es n t (push-IsValid e v first) later in
    (same ∙ rw (push-elems s n e first) (append_assoc s.elems (e ∷ []) es), valid)

-- A run of pushes on an empty array succeeds exactly when the strings with their terminators take
-- at most `u32::MAX` bytes; it then holds them all, in order.
pub push_all_iff :
    (es : List Bytes) (t : StringArray)
    → (push_all es new ≡ pushed t) ↔ ((t.elems ≡ es) × (total es ≤ u32_max))
push_all_iff es t = (
  λ h.
      let (same, valid) =
        push_all-elems es new t (record { few = omega arith; short = omega arith }) h in
      (same, rw same at valid.short),
  λ h. push_all_fits es new h.1 ∙ rw (← h.0) refl,
)
