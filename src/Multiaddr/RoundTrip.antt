-- ===== src/Multiaddr/RoundTrip.antt =====
-- Printing an address, and parsing the text again.
use bls_runtime.Prelude.{
  ℕ, ◌+◌, ◌<◌, ◌≡◌, refl, ap, ◌∙◌, List, [], ◌∷◌, ◌++◌, map, some, Bytes, arith, length, All,
  append-nil,
}
use bls_runtime.Multiaddr.{ok, Indicator, MultiAddr, parse, url_loop, to_url_string}
use bls_runtime.Multiaddr.Reading.{IsSegment, IsSchema, join, url, values, parse-url}

url_loop_slash :
    (last i : ℕ) (p : Indicator) (ps : List Indicator)
    → 0 < i
    → i < last
    → url_loop last i (p ∷ ps) ≡ p.val ++ (b'/' ∷ url_loop last (i + 1) ps)
unfolding url_loop
url_loop_slash last i p ps h e = ground arith

url_loop_last : (last i : ℕ) (p : Indicator) → 0 < i → i ≡ last → url_loop last i (p ∷ []) ≡ p.val
unfolding url_loop
url_loop_last last i p h e = ground (arith, append-nil p.val)

url_loop_first :
    (last : ℕ) (p : Indicator) (ps : List Indicator)
    → url_loop last 0 (p ∷ ps) ≡ p.val ++ (b':' ∷ b'/' ∷ b'/' ∷ url_loop last 1 ps)
unfolding url_loop
url_loop_first last p ps = refl

url_loop-nil : (last i : ℕ) → url_loop last i [] ≡ []
unfolding url_loop
url_loop-nil last i = refl

url_loop-join :
    (last i : ℕ) (ps : List Indicator)
    → 0 < i
    → i + length ps ≡ last + 1
    → url_loop last i ps ≡ join (map (λ (p : Indicator). p.val) ps)
url_loop-join last i [] h e = url_loop-nil last i
url_loop-join last i (p ∷ []) h e = url_loop_last last i p h (omega arith)
url_loop-join last i (p ∷ q ∷ ps) h e =
    url_loop_slash last i p (q ∷ ps) h (omega arith)
    ∙ rw (url_loop-join last (i + 1) (q ∷ ps) (omega arith) (omega arith)) refl

to_url_string-cons :
    (p : Indicator) (ps : List Indicator)
    → to_url_string (record { paths = p ∷ ps }) ≡ some (url_loop (length ps) 0 (p ∷ ps))
unfolding to_url_string
to_url_string-cons p ps = refl

to_url_string-paths :
    (ps : List Indicator) (sch : Bytes) (vs : List Bytes)
    → map (λ (p : Indicator). p.val) ps ≡ sch ∷ vs
    → to_url_string (record { paths = ps }) ≡ some (url sch vs)
to_url_string-paths [] sch vs h = cc
to_url_string-paths (p ∷ ps) sch vs h =
    let head : p.val ≡ sch = cc in
    let rest : map (λ (q : Indicator). q.val) ps ≡ vs = cc in
    to_url_string-cons p ps
    ∙ ap some (
        url_loop_first (length ps) p ps
        ∙ rw (url_loop-join (length ps) 1 ps (omega arith) (omega arith), head, rest) refl)

-- `to_url_string` prints the values of an address that has an indicator: the schema, `://`, and
-- the other values with `/` between them.
pub to_url_string-url :
    (m : MultiAddr) (sch : Bytes) (vs : List Bytes)
    → values m ≡ sch ∷ vs
    → to_url_string m ≡ some (url sch vs)
to_url_string-url m sch vs h = to_url_string-paths m.paths sch vs h

-- Parsing an address that is written from a schema and segments, and printing what was parsed,
-- gives back the address.
pub to_url_string-parse :
    (sch : Bytes) (vs : List Bytes)
    → IsSchema sch
    → All IsSegment vs
    → (m : MultiAddr) × (parse (url sch vs) ≡ ok m) × (to_url_string m ≡ some (url sch vs))
to_url_string-parse sch vs hs h =
    let (m, parsed, same) = parse-url sch vs hs h in (m, parsed, to_url_string-url m sch vs same)
