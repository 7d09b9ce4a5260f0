-- ===== src/Tests/Streams.antt =====
-- Responses of the HTTP driver and answers of the IPFS driver, at concrete servers.
use bls_runtime.Prelude.{
  ℕ, ◌≡◌, refl, false, Option, none, some, List, [], ◌∷◌, ◌++◌, ◌+◌, ◌*◌, Bytes, codes,
  if◌then◌else◌, length, min, arith, ◌==◌,
}
use bls_runtime.Prelude.Assoc.{lookup, insert, nat_eq}
use bls_runtime.Prelude.Text.{bytes_beq, to_ascii_lowercase, digit}
use bls_runtime.Prelude.Result.{ok}
use bls_runtime.Drivers.Http.Streams.{
  chunk, failure, StreamState, stream_read, stream_loop, read_round, read_buffer, read_chunk,
  read_call,
}
use bls_runtime.Drivers.Http.Streams.Rounds.{content, fill, Left, bytes_of}
use bls_runtime.Drivers.Http.Streams.Filled.{stream_read-fill}
use bls_runtime.Drivers.Http
use bls_runtime.Drivers.Http.{
  Request, get, Library, Contexts, http_req, build_request, keep_response, increase_fd, response,
}
use bls_runtime.Drivers.Http.Bodies.{read_bodies, http_req-read_bodies}
use bls_runtime.Drivers.Http.Requests.{at_start, http_req-fresh}
use bls_runtime.Drivers.Ipfs.HttpRaw
use bls_runtime.Drivers.Ipfs.HttpRaw.{Status, complete, partial, read_bulks, done}
use bls_runtime.Drivers.Ipfs.HttpRaw.Chunks.{
  encode, fuel_for, contents, read_bulks-encode, read_bulks-never_ends,
}

-- Three bytes are left over; then two, an error, and one more.
abbrev broken : StreamState
broken = record {
  stream = chunk (codes "de") ∷ failure ∷ chunk (codes "f") ∷ [];
  buffer = some (codes "abc");
}

abbrev room : Bytes
room = codes "........"

stream_read_twice :
    stream_read broken (codes "....")
    ≡ some (
      4,
      codes "abcd",
      record { stream = failure ∷ chunk (codes "f") ∷ []; buffer = some (codes "e") },
    )
unfolding stream_read stream_loop read_round read_buffer read_chunk read_call
stream_read_twice = refl

stream_read-fill_example :
    (s' : StreamState) × (stream_read broken room
      ≡ some (min (length room) (length (content broken)), fill (content broken) room, s'))
    × Left (length room) (content broken) broken.stream s'
stream_read-fill_example = stream_read-fill broken room (omega arith)

-- Every text that is not empty describes one request, and is answered in two pieces.
abbrev member : Bytes → Option Bytes
member key =
    if bytes_beq key (codes "method")
    then some (codes "GET")
    else if bytes_beq key (codes "headers")
    then some (codes "{}")
    else none

abbrev echo : Library
echo = record {
  Json = Bytes;
  parse = λ s. if bytes_beq s [] then none else some s;
  index = λ json key. key;
  as_str = member;
  as_u64 = λ json. none;
  entries = λ json. some [];
  to_lowercase = to_ascii_lowercase;
  header_name = λ s. some s;
  header_value = λ s. some s;
  Response = Bytes;
  send = λ req. some (codes "hello world");
  status = λ r. 200;
  HeaderValue = Bytes;
  header = λ r name. none;
  to_str = λ v. some v;
  bytes_stream = λ r. chunk (codes "hello ") ∷ chunk (codes "world") ∷ [];
}

abbrev no_handles : Contexts echo
no_handles = record { ctx = []; max_handle = 0 }

abbrev url : Bytes
url = codes "http://a/"

abbrev opts : Bytes
opts = codes "o"

abbrev asked : Request
asked = record {
  method = get;
  url = url;
  headers = [];
  body = [];
  connect_timeout = none;
  read_timeout = none;
}

asked_lem : build_request echo url opts ≡ ok asked
unfolding build_request bytes_beq to_ascii_lowercase Http.read_headers
asked_lem = refl

http_req-read_bodies_example :
    (fd : ℕ) × (s' : Contexts echo) × (s'' : Contexts echo) × (http_req echo url opts no_handles
      ≡ (ok (fd, echo.status (codes "hello world")), s'))
    × (read_bodies echo fd (room ∷ room ∷ []) s'
        ≡ some (bytes_of (echo.bytes_stream (codes "hello world")), s''))
http_req-read_bodies_example =
    http_req-read_bodies echo url opts asked (codes "hello world") (room ∷ room ∷ []) no_handles
      asked_lem refl refl (omega arith) (omega arith)

abbrev one_handle : Contexts echo
one_handle = record { ctx = (1, response (codes "hello world")) ∷ []; max_handle = 1 }

one_handle_lem : http_req echo url opts no_handles ≡ (ok (1, 200), one_handle)
unfolding http_req build_request bytes_beq to_ascii_lowercase keep_response increase_fd insert
    Http.read_headers
one_handle_lem = refl

http_req-fresh_example :
    (lookup 1 no_handles.ctx ≡ none)
    × ((j : ℕ) → (1 == j) ≡ false → lookup j one_handle.ctx ≡ lookup j no_handles.ctx)
http_req-fresh_example =
    http_req-fresh echo url opts no_handles one_handle 1 200 at_start (omega arith) one_handle_lem

-- The size is in hexadecimal digits, sixteen at most, up to the end of the line; a peer that has
-- closed gives nothing.
abbrev size_of : ℕ → ℕ → ℕ → Bytes → Option (Status ℕ)
size_of digits pos n [] = some partial
size_of digits pos n (c ∷ []) = some partial
size_of digits pos n (c ∷ d ∷ rest) =
    let more : Option (Status ℕ) = elim (digit 16 c) [
      | none ↦ none
      | some k ↦ size_of (digits + 1) (pos + 1) (n * 16 + k) (d ∷ rest)
    ] in
    if c == b'\r'
    then (if d == b'\n' then some (complete (pos + 2) n) else none)
    else if digits == 16
    then none
    else more

abbrev sizes : Bytes → Option (Status ℕ)
sizes b = size_of 0 0 0 b

abbrev node : HttpRaw.Library
node = record {
  Url = Bytes;
  parse_url = λ s. some s;
  host_str = λ u. none;
  port_or_known_default = λ u. none;
  path = λ u. u;
  query = λ u. none;
  display = λ n. n ∷ [];
  parse_chunk_size = sizes;
  parse_response = λ n s. none;
  Address = Unit;
  socket_addrs = λ u. none;
  Socket = Unit;
  connect = λ a. some tt;
  write_all = λ b s. some s;
  read_buf = λ s. some ([], s);
}

abbrev letters : List (Bytes × Bytes)
letters =
    (codes "2\r\n", codes "ab")
    ∷ (codes "0A\r\n", codes "cdefghijkl")
    ∷ (codes "1\r\n", codes "m")
    ∷ []

read_bulks-encode_example :
    read_bulks node (fuel_for node letters) (encode node letters (codes "0\r\n" ++ codes "\r\n")) tt
    ≡ some (done (contents node letters), tt)
unfolding digit
read_bulks-encode_example =
    read_bulks-encode node letters (codes "0\r\n") (codes "\r\n") tt (λ rest. refl)
      (
        (omega arith, λ rest. refl),
        ((omega arith, λ rest. refl), ((omega arith, λ rest. refl), tt)),
      )

read_bulks-never_ends_example : read_bulks node 1000 [] tt ≡ none
read_bulks-never_ends_example = read_bulks-never_ends node 1000 [] tt refl refl
