-- ===== src/Prelude/Split.antt =====
-- The standard library's splitting and replacing of texts, at a separator that is not empty.
use Prim.Native.Nat.{ℕ, zero, suc, ◌-◌}
use mathlib.Core.Path.{◌≡◌, refl, ap}
use mathlib.Core.Logic.{inl, inr}
use mathlib.Core.Bool.{true, false}
use mathlib.Core.List.{List, [], ◌∷◌, ◌++◌}
use mathlib.Core.Option.{Option, none, some, some-injective}
use native.Mathlib.Omega.{arith}
use bls_runtime.Prelude.Tests.{Bytes, if◌then◌else◌, ◌==◌, Bool-cases}
use bls_runtime.Prelude.Lists.{length, All}
use bls_runtime.Prelude.Text.{strip_prefix, starts_with}

-- `splitn(2, sep)`: what stands in front of the first separator, and what stands behind it.
unfoldable pub split_first : Bytes → Bytes → Bytes × Option Bytes
unfolding strip_prefix
split_first sep [] = ([], none)
split_first sep (c ∷ s) =
    let rest = split_first sep s in
    elim (strip_prefix sep (c ∷ s)) [
      | some behind ↦ ([], some behind)
      | none ↦ (c ∷ rest.0, rest.1)
    ]

-- `split(c)`: all pieces, at least one.
unfoldable pub split_all : ℕ → Bytes → List Bytes
split_all sep [] = [] ∷ []
split_all sep (c ∷ s) = elim (split_all sep s) [
  | [] ↦ (c ∷ []) ∷ []
  | p ∷ ps ↦ if c == sep then [] ∷ p ∷ ps else (c ∷ p) ∷ ps
]

-- `replace(pat, val)`: the occurrences from the left, `skip` bytes of the last one still to pass.
unfoldable pub replace_from : ℕ → Bytes → Bytes → Bytes → Bytes
unfolding starts_with
replace_from skip pat val [] = []
replace_from (suc skip) pat val (c ∷ s) = replace_from skip pat val s
replace_from zero pat val (c ∷ s) = elim (starts_with pat (c ∷ s)) [
  | true ↦ val ++ replace_from (length pat - 1) pat val s
  | false ↦ c ∷ replace_from 0 pat val s
]

abbrev pub replace : Bytes → Bytes → Bytes → Bytes
replace pat val s = replace_from 0 pat val s

-- No byte of a text is the separator.
abbrev pub Without : ℕ → Bytes → Type 0
Without c = All (λ d. (d == c) ≡ false)

-- A key without the separator is split off exactly.
pub split_first-append :
    (c : ℕ) (k v : Bytes) → Without c k → split_first (c ∷ []) (k ++ (c ∷ v)) ≡ (k, some v)
unfolding split_first strip_prefix
split_first-append c [] v h =
    let same : (c == c) ≡ true = ground arith in rw (same, split_first, strip_prefix) refl
split_first-append c (d ∷ k) v h =
    let other : (c == d) ≡ false = ground (arith, h.0) in
    rw (other, split_first, strip_prefix, split_first-append c k v h.1) refl

-- What is split in two is the text again around the separator, and the key holds no separator.
pub split_first-some :
    (c : ℕ) (s k v : Bytes)
    → split_first (c ∷ []) s ≡ (k, some v)
    → (s ≡ k ++ (c ∷ v)) × Without c k
unfolding split_first strip_prefix
split_first-some c [] k v h = absurd (cc)
split_first-some c (d ∷ s) k v h = elim (Bool-cases (c == d)) [
  | inl same ↦
      let e : d ≡ c = ground arith in
      let cut = rw (same, split_first, strip_prefix) at h in
      let key : [] ≡ k = ap (λ (x : Bytes × Option Bytes). x.0) cut in
      let value : s ≡ v = some-injective _ _ (ap (λ (x : Bytes × Option Bytes). x.1) cut) in
      rw (← key, ← value, e) (refl, tt)
  | inr other ↦
      let cut = rw (other, split_first, strip_prefix) at h in
      let head = (split_first (c ∷ []) s).0 in
      let key : d ∷ head ≡ k = ap (λ (x : Bytes × Option Bytes). x.0) cut in
      let value : (split_first (c ∷ []) s).1 ≡ some v =
        ap (λ (x : Bytes × Option Bytes). x.1) cut in
      let (text, clean) = split_first-some c s head v (ap (λ o. (head, o)) value) in
      rw (← key) (ap (◌∷◌ d) text, (ground (arith, other), clean))
]

-- The pieces joined again with the separator between them.
abbrev pub join_with : ℕ → List Bytes → Bytes
join_with sep [] = []
join_with sep (p ∷ []) = p
join_with sep (p ∷ q ∷ ps) = p ++ (sep ∷ join_with sep (q ∷ ps))

-- Splitting loses nothing: the pieces joined again are the text.
pub join_with-split_all : (sep : ℕ) (s : Bytes) → join_with sep (split_all sep s) ≡ s
unfolding split_all
join_with-split_all sep [] = refl
join_with-split_all sep (c ∷ s) = go (split_all sep s) (join_with-split_all sep s)
  where
    go :
        (ps : List Bytes)
        → join_with sep ps ≡ s
        → join_with sep (elim ps [
          | [] ↦ (c ∷ []) ∷ []
          | p ∷ rest ↦ if c == sep then [] ∷ p ∷ rest else (c ∷ p) ∷ rest
        ])
          ≡ c ∷ s
    go [] h = ap (◌∷◌ c) h
    go (p ∷ []) h = ground (arith, h)
    go (p ∷ q ∷ ps) h = ground (arith, h)
