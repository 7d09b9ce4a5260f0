-- ===== src/Cli/Parsers/Commas.antt =====
-- No engine option of cli_clap.rs has a comma in its name or in a value that it accepts.
use mathlib.Core.Option.{some-injective}
use bls_runtime.Prelude.{
  ℕ, ◌≡◌, refl, ap, Bool, true, false, not, ◌&&◌, ◌||◌, none, some, List, [], ◌∷◌, ◌++◌, Bytes,
  codes, ◌==◌, ◌^◌, All, arith, Bool-cases, Option-cases, inl, inr, ◌*◌, ◌+◌, ltb, ◌≤◌,
}
use bls_runtime.Prelude.Assoc.{lookup}
use bls_runtime.Prelude.Text.{
  bytes_eq, bytes_beq, bytes_beq_iff, strip_prefix, from_str_radix, parse_nonempty, parse_digits,
  digit,
}
use bls_runtime.Config.Options.{
  OptKind, opt_level, regalloc, boolean, u32, u64, usize, opt_fields, parse_value, parse_opt_level,
  parse_bool, parse_regalloc, parse_number, item_value,
}

-- Whether a text has a comma.
abbrev pub has_comma : Bytes → Bool
has_comma [] = false
has_comma (c ∷ s) = c == b',' || has_comma s

has_comma-append : (a b : Bytes) → has_comma (a ++ (b',' ∷ b)) ≡ true
has_comma-append [] b = refl
has_comma-append (c ∷ a) b = ground (arith, has_comma-append a b)

-- No number of any radix is written with a comma.
parse_digits-comma :
    (s : Bytes) (modulus radix acc : ℕ)
    → radix ≤ 16
    → has_comma s ≡ true
    → parse_digits modulus radix acc s ≡ none
unfolding parse_digits digit
parse_digits-comma [] modulus radix acc le h = absurd (cc)
parse_digits-comma (c ∷ s) modulus radix acc le h = elim (Bool-cases (c == b',')) [
  | inl e ↦
      let too_big : ltb 16 radix ≡ false = ground (arith, le) in
      let comma : c ≡ b',' = ground (arith, e) in
      let none_left : digit radix c ≡ none = rw comma (rw (too_big, digit) refl) in
      rw (none_left, parse_digits) refl
  | inr e ↦
      let later : has_comma s ≡ true = ground (arith, e, h) in
      elim (Option-cases (digit radix c)) [
        | inl bad ↦ rw (bad, parse_digits) refl
        | inr (d, good) ↦ elim (Bool-cases (ltb (acc * radix + d) modulus)) [
          | inl fits ↦
              rw (good, fits, parse_digits)
                (parse_digits-comma s modulus radix (acc * radix + d) le later)
          | inr over ↦ rw (good, over, parse_digits) refl
        ]
      ]
]

parse_nonempty-comma :
    (s : Bytes) (modulus radix : ℕ)
    → radix ≤ 16
    → has_comma s ≡ true
    → parse_nonempty modulus radix s ≡ none
unfolding parse_nonempty
parse_nonempty-comma [] modulus radix le h = refl
parse_nonempty-comma (c ∷ s) modulus radix le h = parse_digits-comma (c ∷ s) modulus radix 0 le h

from_str_radix-comma :
    (s : Bytes) (modulus radix : ℕ)
    → radix ≤ 16
    → has_comma s ≡ true
    → from_str_radix modulus radix s ≡ none
unfolding from_str_radix
from_str_radix-comma [] modulus radix le h = refl
from_str_radix-comma (c ∷ s) modulus radix le h = elim (Bool-cases (c == b'+')) [
  | inl plus ↦
      let later : has_comma s ≡ true = ground (arith, plus, h) in
      rw (plus, from_str_radix) (parse_nonempty-comma s modulus radix le later)
  | inr digits ↦ rw (digits, from_str_radix) (parse_nonempty-comma (c ∷ s) modulus radix le h)
]

strip_prefix-comma :
    (p v w : Bytes)
    → has_comma p ≡ false
    → strip_prefix p v ≡ some w
    → has_comma v ≡ true
    → has_comma w ≡ true
unfolding strip_prefix
strip_prefix-comma [] v w bare e h = rw (← some-injective _ _ e) h
strip_prefix-comma (d ∷ p) [] w bare e h = absurd (cc)
strip_prefix-comma (d ∷ p) (c ∷ v) w bare e h = elim (Bool-cases (d == c)) [
  | inl same ↦
      strip_prefix-comma p v w (ground (arith, bare)) (rw (same, strip_prefix) at e)
        (ground (arith, same, bare, h))
  | inr other ↦ absurd (cc (rw (other, strip_prefix) at e))
]

parse_number-comma : (modulus : ℕ) (v : Bytes) → has_comma v ≡ true → parse_number modulus v ≡ none
unfolding parse_number
parse_number-comma modulus v h = elim (Option-cases (strip_prefix (codes "0x") v)) [
  | inl e ↦ rw (e, parse_number) (from_str_radix-comma v modulus 10 (omega arith) h)
  | inr (hex, e) ↦
      rw (e, parse_number)
        (from_str_radix-comma hex modulus 16 (omega arith)
          (strip_prefix-comma (codes "0x") v hex refl e h))
]

-- A text with a comma is no word without one.
pub bytes_beq-comma :
    (v w : Bytes) → has_comma v ≡ true → has_comma w ≡ false → bytes_beq v w ≡ false
bytes_beq-comma v w h bare = elim (Bool-cases (bytes_beq v w)) [
  | inl e ↦ absurd (cc (ap has_comma ((bytes_beq_iff v w).0 e)))
  | inr e ↦ e
]

parse_value-comma : (kind : OptKind) (v : Bytes) → has_comma v ≡ true → parse_value kind v ≡ none
unfolding parse_value parse_opt_level parse_bool parse_regalloc
parse_value-comma opt_level v h =
    rw
      (
        bytes_beq-comma v (codes "n") h refl,
        bytes_beq-comma v (codes "s") h refl,
        bytes_beq-comma v (codes "ss") h refl,
        parse_value,
        parse_opt_level,
      )
      refl
parse_value-comma regalloc v h =
    rw
      (
        bytes_beq-comma v (codes "backtracking") h refl,
        bytes_beq-comma v (codes "single-pass") h refl,
        parse_value,
        parse_regalloc,
      )
      refl
parse_value-comma boolean v h =
    rw
      (
        bytes_beq-comma v (codes "y") h refl,
        bytes_beq-comma v (codes "yes") h refl,
        bytes_beq-comma v (codes "true") h refl,
        bytes_beq-comma v (codes "n") h refl,
        bytes_beq-comma v (codes "no") h refl,
        bytes_beq-comma v (codes "false") h refl,
        parse_value,
        parse_bool,
      )
      refl
parse_value-comma u32 v h = rw (parse_number-comma (2 ^ 32) v h, parse_value) refl
parse_value-comma u64 v h = rw (parse_number-comma (2 ^ 64) v h, parse_value) refl
parse_value-comma usize v h = rw (parse_number-comma (2 ^ 64) v h, parse_value) refl

lookup-comma :
    {V : Type 0} (k : Bytes) (m : List (Bytes × V))
    → has_comma k ≡ true
    → All (λ (e : Bytes × V). has_comma e.0 ≡ false) m
    → lookup k m ≡ none
unfolding lookup
lookup-comma k [] h bare = refl
lookup-comma k (e ∷ m) h bare = elim (Bool-cases (bytes_beq e.0 k)) [
  | inl same ↦ absurd (cc (ap has_comma ((bytes_beq_iff e.0 k).0 same), bare.0))
  | inr other ↦ rw (other, lookup) (lookup-comma k m h bare.1)
]

abbrev all_bare : {V : Type 0} → List (Bytes × V) → Bool
all_bare [] = true
all_bare (e ∷ m) = not (has_comma e.0) && all_bare m

all_bare-All :
    {V : Type 0} (m : List (Bytes × V))
    → all_bare m ≡ true
    → All (λ (e : Bytes × V). has_comma e.0 ≡ false) m
all_bare-All [] h = tt
all_bare-All (e ∷ m) h = (ground (arith, h), all_bare-All m (ground (arith, h)))

-- No option's name has a comma.
opt_fields-bare : All (λ (e : Bytes × OptKind). has_comma e.0 ≡ false) opt_fields
unfolding opt_fields
opt_fields-bare = all_bare-All opt_fields refl

-- An item with a comma in its name or in its value sets no option.
pub item_value-comma : (k v : Bytes) → has_comma (k ++ (b'=' ∷ v)) ≡ true → item_value (k, v) ≡ none
unfolding item_value
item_value-comma k v h = elim (Bool-cases (has_comma k)) [
  | inl e ↦ rw (lookup-comma k opt_fields e opt_fields-bare, item_value) refl
  | inr e ↦
      let behind : has_comma v ≡ true = value k e h in
      elim (Option-cases (lookup k opt_fields)) [
        | inl unknown ↦ rw (unknown, item_value) refl
        | inr (kind, known) ↦ rw (known, item_value) (parse_value-comma kind v behind)
      ]
]
  where
    value :
        (k : Bytes) → has_comma k ≡ false → has_comma (k ++ (b'=' ∷ v)) ≡ true → has_comma v ≡ true
    value [] e h = h
    value (c ∷ k) e h = ground (arith, value k, e, h)
