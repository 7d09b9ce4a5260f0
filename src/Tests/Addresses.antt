-- ===== src/Tests/Addresses.antt =====
-- Multi-addresses: runs of `parse` and `to_url_string`, and the theorems on them.
use bls_runtime.Prelude.{◌+◌, ◌≡◌, refl, some, List, [], ◌∷◌, Bytes, codes, length, All}
use bls_runtime.Multiaddr.{
  invalid_token, ok, err, is_addr_token, indicator, MultiAddr, parse, to_url_string,
}
use bls_runtime.Multiaddr.Layout.{IsLaidOut, parse-IsLaidOut}
use bls_runtime.Multiaddr.Reading.{IsSegment, IsSchema, url}
use bls_runtime.Multiaddr.RoundTrip.{to_url_string-parse}

abbrev address : Bytes
address = codes "http://h:80/a"

abbrev parsed : MultiAddr
parsed = record {
  paths = indicator address 0 4 ∷ indicator address 7 11 ∷ indicator address 12 13 ∷ [];
}

address_parses : parse address ≡ ok parsed
unfolding parse
address_parses = refl

-- A space is no token of an address.
space_refused : parse (codes "a b") ≡ err invalid_token
unfolding parse
space_refused = refl

-- An address without indicators cannot be printed: the source subtracts one from its length.
nothing_to_print : to_url_string (record { paths = [] }) ≡ some []
unfolding to_url_string
nothing_to_print = refl

http_IsSchema : IsSchema (codes "http")
unfolding is_addr_token
http_IsSchema = ((refl, (refl, (refl, (refl, tt)))), λ e. cc)

abbrev segments : List Bytes
segments = codes "h:80" ∷ codes "a" ∷ []

segments-IsSegment : All IsSegment segments
unfolding is_addr_token
segments-IsSegment = (((refl, (refl, (refl, (refl, tt)))), λ e. cc), (((refl, tt), λ e. cc), tt))

parse-IsLaidOut_example : IsLaidOut address 0 parsed.paths (length address + 1)
parse-IsLaidOut_example = parse-IsLaidOut address parsed address_parses

to_url_string-parse_example :
    (m : MultiAddr) × (parse (url (codes "http") segments) ≡ ok m)
    × (to_url_string m ≡ some (url (codes "http") segments))
to_url_string-parse_example =
    to_url_string-parse (codes "http") segments http_IsSchema segments-IsSegment
