-- ===== src/Multiaddr.antt =====
-- crates/blockless-multiaddr/src/lib.rs and parse.rs: addresses such as `tcp://host:80/path`.
-- Byte slices are lists of numbers. `Indicator` keeps its slice and its two offsets.
mod Slices
pub mod Layout
pub mod Reading
pub mod RoundTrip
use bls_runtime.Prelude.{
  ℕ, zero, suc, ◌+◌, ◌-◌, Bool, true, false, not, ◌&&◌, ◌||◌, List, [], ◌∷◌, ◌++◌, Option, none,
  some, leb, ltb, ◌==◌, if◌then◌else◌, Bytes, length, take, drop,
}

pub data Error : Type 0 where
  partial invalid_token : Error

pub data Result {ℓ} (A : Type ℓ) : Type ℓ where
  ok : A → Result A
  err : Error → Result A

-- ADDR_MAP: printable ASCII but ` `, `<` and `>`.
unfoldable pub is_addr_token : ℕ → Bool
is_addr_token b = ltb 32 b && ltb b 127 && not (b == b'<') && not (b == b'>')

pub record Indicator : Type 0 where
  pub val : Bytes
  pub begin : ℕ
  pub stop : ℕ

pub record MultiAddr : Type 0 where
  pub paths : List Indicator

-- &bs[begin..end]
abbrev pub slice : Bytes → ℕ → ℕ → Bytes
slice bs begin stop = take (stop - begin) (drop begin bs)

abbrev pub indicator : Bytes → ℕ → ℕ → Indicator
indicator bs begin stop = record { val = slice bs begin stop; begin = begin; stop = stop }

pub data Status : Type 0 where
  idle : Status
  indicator_begin : ℕ → Status

-- The variables of the loop in `parse`. Where the source restarts its iterator at `c_off + 3`,
-- `skip` counts the bytes that it passes over.
pub record Cursor : Type 0 where
  pub token : Status
  pub paths : List Indicator
  pub skip : ℕ

abbrev pub start : Cursor
start = record { token = idle; paths = []; skip = 0 }

unfoldable pub is_empty : List Indicator → Bool
is_empty [] = true
is_empty (p ∷ ps) = false

-- `address[c_off..].len() < 3 || &address[c_off + 1..c_off + 3] != b"//"`, on what stands behind c
unfoldable pub is_schema_end : Bytes → Bool
is_schema_end (d ∷ e ∷ more) = d == b'/' && e == b'/'
is_schema_end _ = false

abbrev pub push : Bytes → ℕ → ℕ → Cursor → Cursor
push address begin off s = record s {
  token = idle;
  paths = s.paths ++ (indicator address begin off ∷ []);
}

-- the match on `token`, for a byte c at offset `off` with `rest` behind it
unfoldable pub parse_token : Bytes → ℕ → ℕ → Bytes → Cursor → Status → Result Cursor
parse_token address off c rest s idle =
    if c == b'/'
    then (if is_empty s.paths then err invalid_token else ok s)
    else ok (record s { token = indicator_begin off })
parse_token address off c rest s (indicator_begin begin) =
    if c == b':' && is_empty s.paths
    then (if is_schema_end rest
        then ok (record (push address begin off s) { skip = 2 })
        else err invalid_token)
    else if c == b'/'
    then ok (push address begin off s)
    else ok s

-- one round of the loop
unfoldable pub parse_step : Bytes → ℕ → ℕ → Bytes → Cursor → Result Cursor
parse_step address off c rest s =
    if ltb 0 s.skip
    then ok (record s { skip = s.skip - 1 })
    else if not (is_addr_token c)
    then err invalid_token
    else parse_token address off c rest s s.token

unfoldable pub parse_loop : Bytes → ℕ → Bytes → Cursor → Result Cursor
unfolding is_empty is_schema_end parse_token parse_step is_addr_token
parse_loop address off [] s = ok s
parse_loop address off (c ∷ rest) s = elim (parse_step address off c rest s) [
  | ok s' ↦ parse_loop address (off + 1) rest s'
  | err e ↦ err e
]

-- behind the loop: an open indicator runs to the end of the address
unfoldable pub finish : Bytes → Cursor → Status → MultiAddr
finish address s idle = record { paths = s.paths }
finish address s (indicator_begin begin) = record {
  paths = s.paths ++ (indicator address begin (length address) ∷ []);
}

unfoldable pub parse : Bytes → Result MultiAddr
unfolding parse_loop finish
parse address = elim (parse_loop address 0 address start) [
  | ok s ↦ ok (finish address s s.token)
  | err e ↦ err e
]

-- `from_utf8` is the standard library's test of its argument.
unfoldable pub schema : (Bytes → Bool) → MultiAddr → Result Bytes
schema from_utf8 m = elim m.paths [
  | [] ↦ err partial
  | p ∷ ps ↦ if from_utf8 p.val then ok p.val else err invalid_token
]

-- the loop of `to_url_string`: `i` is the index, and `last` the index of the last indicator
unfoldable pub url_loop : ℕ → ℕ → List Indicator → Bytes
url_loop last i [] = []
url_loop last i (p ∷ ps) =
    let rest = url_loop last (i + 1) ps in
    if i == 0
    then p.val ++ (b':' ∷ b'/' ∷ b'/' ∷ rest)
    else if not (i == last)
    then p.val ++ (b'/' ∷ rest)
    else p.val ++ rest

-- The result is always `Ok`, which is `some` here. At an address with no indicator the subtraction
-- in `self.paths.len() - 1` wraps, and the loop has no round.
unfoldable pub to_url_string : MultiAddr → Option Bytes
unfolding url_loop
to_url_string m = elim m.paths [ [] ↦ some [] | p ∷ ps ↦ some (url_loop (length ps) 0 (p ∷ ps)) ]
