-- ===== src/Prelude/Text.antt =====
-- Texts as byte lists: equality, prefixes, ASCII case, and the standard library's parsing of
-- unsigned integers.
use Prim.Native.Nat.{ℕ, ◌+◌, ◌-◌, ◌*◌, ◌<◌}
use mathlib.Core.Path.{◌≡◌, refl, sym, ap}
use mathlib.Core.Logic.{◌↔◌, inl, inr}
use mathlib.Core.Bool.{Bool, true, false, ◌&&◌, ◌||◌}
use mathlib.Core.List.{[], ◌∷◌, ◌++◌}
use mathlib.Core.Option.{Option, none, some}
use native.Mathlib.Omega.{arith}
use bls_runtime.Prelude.Tests.{Bytes, if◌then◌else◌, ◌==◌, leb, ltb, Bool-cases, Option-cases}
use bls_runtime.Prelude.Assoc.{Eq}

unfoldable pub bytes_beq : Bytes → Bytes → Bool
bytes_beq [] [] = true
bytes_beq (x ∷ xs) (y ∷ ys) = x == y && bytes_beq xs ys
bytes_beq _ _ = false

pub bytes_beq_iff : (a b : Bytes) → (bytes_beq a b ≡ true) ↔ (a ≡ b)
unfolding bytes_beq
bytes_beq_iff (x ∷ a) (y ∷ b) = ground (arith, bytes_beq_iff a b)
bytes_beq_iff _ _ = ground arith

instance abbrev pub bytes_eq : Eq Bytes
bytes_eq = record { beq = bytes_beq; beq_iff = bytes_beq_iff }

-- `strip_prefix`, `starts_with`
unfoldable pub strip_prefix : Bytes → Bytes → Option Bytes
strip_prefix [] s = some s
strip_prefix (p ∷ ps) [] = none
strip_prefix (p ∷ ps) (c ∷ s) = if p == c then strip_prefix ps s else none

unfoldable pub starts_with : Bytes → Bytes → Bool
starts_with [] s = true
starts_with (p ∷ ps) [] = false
starts_with (p ∷ ps) (c ∷ s) = p == c && starts_with ps s

unfoldable pub ascii_lower : ℕ → ℕ
ascii_lower c = if leb b'A' c && leb c b'Z' then c + 32 else c

unfoldable pub to_ascii_lowercase : Bytes → Bytes
unfolding ascii_lower
to_ascii_lowercase [] = []
to_ascii_lowercase (c ∷ s) = ascii_lower c ∷ to_ascii_lowercase s

-- the value of a digit in a radix of at most 16
unfoldable pub digit : ℕ → ℕ → Option ℕ
digit radix c =
    let d =
      if leb b'0' c && leb c b'9'
      then c - b'0'
      else if leb b'a' c && leb c b'f'
      then c - b'a' + 10
      else if leb b'A' c && leb c b'F'
      then c - b'A' + 10
      else 16 in
    if ltb d radix then some d else none

-- the digits of a number below `modulus`, after `acc`
unfoldable pub parse_digits : ℕ → ℕ → ℕ → Bytes → Option ℕ
unfolding digit
parse_digits modulus radix acc [] = some acc
parse_digits modulus radix acc (c ∷ s) = elim (digit radix c) [
  | none ↦ none
  | some d ↦ elim (ltb (acc * radix + d) modulus) [
    | true ↦ parse_digits modulus radix (acc * radix + d) s
    | false ↦ none
  ]
]

-- no digit at all is refused
unfoldable pub parse_nonempty : ℕ → ℕ → Bytes → Option ℕ
unfolding parse_digits
parse_nonempty modulus radix [] = none
parse_nonempty modulus radix (c ∷ s) = parse_digits modulus radix 0 (c ∷ s)

-- `from_str_radix` of an unsigned type: one `+` may stand in front.
unfoldable pub from_str_radix : ℕ → ℕ → Bytes → Option ℕ
unfolding parse_nonempty
from_str_radix modulus radix [] = none
from_str_radix modulus radix (c ∷ s) =
    if c == b'+' then parse_nonempty modulus radix s else parse_nonempty modulus radix (c ∷ s)

parse_digits-lt :
    (s : Bytes) (modulus radix acc : ℕ) {n : ℕ}
    → acc < modulus
    → parse_digits modulus radix acc s ≡ some n
    → n < modulus
unfolding parse_digits
parse_digits-lt [] modulus radix acc lt h = ground arith
parse_digits-lt (c ∷ s) modulus radix acc lt h = elim (Option-cases (digit radix c)) [
  | inl e ↦ absurd (cc (rw (e, parse_digits) at h))
  | inr (d, e) ↦ elim (Bool-cases (ltb (acc * radix + d) modulus)) [
    | inl fits ↦
        parse_digits-lt s modulus radix (acc * radix + d) (ground arith)
          (rw (e, fits, parse_digits) at h)
    | inr over ↦ absurd (cc (rw (e, over, parse_digits) at h))
  ]
]

parse_nonempty-lt :
    (s : Bytes) (modulus radix : ℕ) {n : ℕ}
    → 0 < modulus
    → parse_nonempty modulus radix s ≡ some n
    → n < modulus
unfolding parse_nonempty
parse_nonempty-lt [] modulus radix lt h = absurd (cc)
parse_nonempty-lt (c ∷ s) modulus radix lt h = parse_digits-lt (c ∷ s) modulus radix 0 lt h

-- A parsed number fits its type.
pub from_str_radix-lt :
    (s : Bytes) (modulus radix : ℕ) {n : ℕ}
    → 0 < modulus
    → from_str_radix modulus radix s ≡ some n
    → n < modulus
unfolding from_str_radix
from_str_radix-lt [] modulus radix lt h = absurd (cc)
from_str_radix-lt (c ∷ s) modulus radix lt h = elim (Bool-cases (c == b'+')) [
  | inl plus ↦ parse_nonempty-lt s modulus radix lt (rw (plus, from_str_radix) at h)
  | inr digits ↦ parse_nonempty-lt (c ∷ s) modulus radix lt (rw (digits, from_str_radix) at h)
]

starts_with_append : (p s : Bytes) → starts_with p (p ++ s) ≡ true
unfolding starts_with
starts_with_append [] s = refl
starts_with_append (c ∷ p) s = ground (arith, starts_with_append p s)

-- `contains` of a text, and `ends_with`
unfoldable pub contains : Bytes → Bytes → Bool
contains p [] = starts_with p []
contains p (c ∷ s) = starts_with p (c ∷ s) || contains p s

unfoldable pub ends_with : Bytes → Bytes → Bool
ends_with p [] = bytes_beq p []
ends_with p (c ∷ s) = bytes_beq p (c ∷ s) || ends_with p s

pub contains-append : (p a b : Bytes) → contains p (a ++ (p ++ b)) ≡ true
unfolding contains
contains-append p [] b = at_front p (p ++ b) (starts_with_append p b)
  where
    at_front : (p s : Bytes) → starts_with p s ≡ true → contains p s ≡ true
    at_front p [] h = h
    at_front p (c ∷ s) h = ground (arith, h)
contains-append p (c ∷ a) b = ground (arith, contains-append p a b)

pub ends_with-some : (p s : Bytes) → ends_with p s ≡ true → (front : Bytes) × (s ≡ front ++ p)
unfolding ends_with
ends_with-some p [] h = ([], sym ((bytes_beq_iff p []).0 h))
ends_with-some p (c ∷ s) h = elim (Bool-cases (bytes_beq p (c ∷ s))) [
  | inl same ↦ ([], sym ((bytes_beq_iff p (c ∷ s)).0 same))
  | inr other ↦
      let (front, e) = ends_with-some p s (ground (arith, h, other)) in (c ∷ front, ap (◌∷◌ c) e)
]
