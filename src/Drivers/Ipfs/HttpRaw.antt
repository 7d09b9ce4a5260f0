-- ===== src/Drivers/Ipfs/HttpRaw.antt =====
-- crates/blockless-drivers/src/ipfs_driver/http_raw.rs: a request whose body is sent by hand, and
-- the reader of its response. The URL library, the parser httparse, the printing of numbers and
-- the socket are parameters. A panic is a constructor, and a loop has fuel: `none` means that it
-- ran out. The order in which a hash map gives its headers is that of the list.
pub mod Chunks
use bls_runtime.Prelude.{
  ℕ, zero, suc, ◌+◌, ◌-◌, ◌*◌, Bool, true, false, ◌&&◌, Option, none, some, List, [], ◌∷◌, ◌++◌,
  Bytes, codes, if◌then◌else◌, ltb, leb, ◌==◌, length, take, drop,
}
use bls_runtime.Prelude.Assoc.{Assoc, lookup, insert}
use bls_runtime.Prelude.Text.{bytes_eq, starts_with}

pub data IpfsErrorKind : Type 0 where
  invalid_handle utf8_error invalid_method invalid_encoding invalid_parameter : IpfsErrorKind
  request_error runtime_error too_many_sessions permission_deny : IpfsErrorKind

pub data Ending {ℓ} (A : Type ℓ) : Type ℓ where
  done : A → Ending A
  failed : IpfsErrorKind → Ending A
  panics : Ending A

-- What a parser says of the bytes that are there: an item with the place behind it, or that more
-- are needed.
pub data Status (A : Type 0) : Type 0 where
  complete : ℕ → A → Status A
  partial : Status A

-- The libraries. `parse_chunk_size` gives the place behind the size line and the size, a `u64`;
-- `parse_response` takes the number of headers that it has room for and gives the status code, a `u16`;
-- `none` is an error. `read_buf` gives what there is, nothing where the peer has closed.
pub record Library : Type 1 where
  pub Url : Type 0
  pub parse_url : Bytes → Option Url
  pub host_str : Url → Option Bytes
  pub port_or_known_default : Url → Option ℕ
  pub path : Url → Bytes
  pub query : Url → Option Bytes
  pub display : ℕ → Bytes
  pub parse_chunk_size : Bytes → Option (Status ℕ)
  pub parse_response : ℕ → Bytes → Option (Status ℕ)
  pub Address : Type 0
  pub socket_addrs : Url → Option (List Address)
  pub Socket : Type 0
  pub connect : Address → Option Socket
  pub write_all : Bytes → Socket → Option Socket
  pub read_buf : Socket → Option (Bytes × Socket)

abbrev pub eol : Bytes
eol = codes "\r\n"

-- The extension of a hash map by another.
abbrev extend : Assoc Bytes (List Bytes) → Assoc Bytes (List Bytes) → Assoc Bytes (List Bytes)
extend m [] = m
extend m ((k, v) ∷ rest) = extend (insert k v m) rest

-- The lines of the headers.
abbrev lines_of : Bytes → List Bytes → Bytes
lines_of k [] = []
lines_of k (i ∷ is) = k ++ (codes ": " ++ (i ++ (eol ++ lines_of k is)))

abbrev all_lines : Assoc Bytes (List Bytes) → Bytes
all_lines [] = []
all_lines ((k, v) ∷ rest) = lines_of k v ++ all_lines rest

unfoldable pub boundary_begin : Bytes → Bytes
boundary_begin boundary =
    codes "--"
    ++ (boundary
        ++ (eol
            ++ (codes "Content-Disposition: form-data"
                ++ (eol ++ (codes "Content-Type: application/octet-stream" ++ (eol ++ eol))))))

unfoldable pub boundary_end : Bytes → Bytes
boundary_end boundary = eol ++ (codes "--" ++ (boundary ++ (codes "--" ++ eol)))

module _ (lib : Library) where
  pub record HttpRaw : Type 0 where
    pub url : lib.Url
    pub method : Bytes
    pub boundary : Option Bytes
    pub header : Assoc Bytes (List Bytes)
    pub tcp_stream : Option lib.Socket

  unfoldable pub from_url : Bytes → Ending HttpRaw
  from_url text = elim (lib.parse_url text) [
    | none ↦ failed invalid_parameter
    | some url ↦ done (record {
      url = url;
      method = codes "GET";
      boundary = none;
      header = [];
      tcp_stream = none;
    })
  ]

  abbrev with_value : Bytes → Option (List Bytes) → List Bytes
  with_value value none = value ∷ []
  with_value value (some vs) = vs ++ (value ∷ [])

  unfoldable pub insert_header : Bytes → Bytes → HttpRaw → HttpRaw
  insert_header key value raw = record raw {
    header = insert key (with_value value (lookup key raw.header)) raw.header;
  }

  abbrev with_port : Bytes → Option ℕ → Bytes
  with_port host none = host
  with_port host (some p) = host ++ (b':' ∷ lib.display p)

  abbrev host_header : lib.Url → Assoc Bytes (List Bytes)
  host_header url = elim (lib.host_str url) [
    | none ↦ []
    | some h ↦ (codes "Host", with_port h (lib.port_or_known_default url) ∷ []) ∷ []
  ]

  unfoldable pub header_raw : HttpRaw → Bytes
  header_raw raw =
      all_lines
        (extend (insert (codes "Accept") (codes "*/*" ∷ []) (host_header raw.url)) raw.header)

  abbrev query_part : Option Bytes → Bytes
  query_part none = []
  query_part (some q) = b'?' ∷ q

  unfoldable pub get_req_raw : HttpRaw → Bytes
  get_req_raw raw =
      raw.method
      ++ (codes " "
          ++ (lib.path raw.url
              ++ (query_part (lib.query raw.url)
                  ++ (codes " " ++ (codes "HTTP/1.1" ++ (eol ++ header_raw raw))))))

  abbrev sent : HttpRaw → Option lib.Socket → Ending HttpRaw
  sent raw none = failed request_error
  sent raw (some stream) = done (record raw { tcp_stream = some stream })

  -- The first of the addresses is tried.
  abbrev connect_first : HttpRaw → Option (List lib.Address) → Ending HttpRaw
  connect_first raw none = failed invalid_parameter
  connect_first raw (some []) = failed invalid_parameter
  connect_first raw (some (addr ∷ addrs)) = elim (lib.connect addr) [
    | none ↦ failed request_error
    | some stream ↦ sent raw (lib.write_all (get_req_raw raw) stream)
  ]

  unfoldable pub connect : HttpRaw → Ending HttpRaw
  connect raw = connect_first raw (lib.socket_addrs raw.url)

  abbrev pub is_connect : HttpRaw → Bool
  is_connect raw = elim raw.tcp_stream [ none ↦ false | some stream ↦ true ]

  -- What is sent for the body: its headers, which close those of the request, and one part.
  unfoldable pub boundary_message : Bytes → Bytes → Bytes
  boundary_message boundary val =
      let body = boundary_begin boundary ++ (val ++ boundary_end boundary) in
      codes "Content-Length: "
      ++ (lib.display (length body)
          ++ (eol
              ++ (codes "Content-Type: multipart/form-data; boundary="
                  ++ (boundary ++ (eol ++ (eol ++ body))))))

  -- The length of the value, and the request with the socket behind the write.
  unfoldable pub write_boundary : Bytes → HttpRaw → Ending (ℕ × HttpRaw)
  write_boundary val raw = elim raw.tcp_stream [
    | none ↦ failed request_error
    | some stream ↦ elim raw.boundary [
      | none ↦ failed request_error
      | some boundary ↦ elim (lib.write_all (boundary_message boundary val) stream) [
        | none ↦ failed request_error
        | some stream' ↦ done (length val, record raw { tcp_stream = some stream' })
      ]
    ]
  ]

  -- The chunks, and the socket behind them.
  abbrev pub Bulks : Type 0
  Bulks = Option (Ending (List Bytes) × lib.Socket)

  abbrev prepend : Bytes → Ending (List Bytes) → Ending (List Bytes)
  prepend chunk (done chunks) = done (chunk ∷ chunks)
  prepend chunk (failed e) = failed e
  prepend chunk panics = panics

  abbrev in_front : Bytes → Bulks → Bulks
  in_front chunk none = none
  in_front chunk (some (ending, socket)) = some (prepend chunk ending, socket)

  -- The bytes behind a chunk, without the end of its line where it is there.
  abbrev pub skip_eol : Bytes → Bytes
  skip_eol bulk = if leb 2 (length bulk) && starts_with eol bulk then drop 2 bulk else bulk

  module _ (again : Bytes → lib.Socket → Bulks) where
    -- More bytes are needed for the size.
    unfoldable pub read_more : Bytes → lib.Socket → Bulks
    read_more bulk socket = elim (lib.read_buf socket) [
      | none ↦ some (failed request_error, socket)
      | some (buf, socket') ↦ again (bulk ++ buf) socket'
    ]

    -- A chunk of the size that was parsed. For what is missing of it the code asks for as many
    -- bytes as an empty vector holds, so that none come, and the cut panics.
    unfoldable pub take_chunk : ℕ → ℕ → Bytes → lib.Socket → Bulks
    take_chunk pos chunk_len bulk socket =
        if chunk_len == 0
        then some (done [], socket)
        else if ltb (length (drop pos bulk)) chunk_len
        then some (panics, socket)
        else in_front (take chunk_len (drop pos bulk))
            (again (skip_eol (drop chunk_len (drop pos bulk))) socket)

    unfoldable pub bulk_round : Option (Status ℕ) → Bytes → lib.Socket → Bulks
    bulk_round none bulk socket = some (failed request_error, socket)
    bulk_round (some partial) bulk socket = read_more bulk socket
    bulk_round (some (complete pos chunk_len)) bulk socket = take_chunk pos chunk_len bulk socket

  unfoldable pub read_bulks : ℕ → Bytes → lib.Socket → Bulks
  read_bulks zero bulk socket = none
  read_bulks (suc fuel) bulk socket =
      bulk_round (read_bulks fuel) (lib.parse_chunk_size bulk) bulk socket

  abbrev concat : List Bytes → Bytes
  concat [] = []
  concat (b ∷ bs) = b ++ concat bs

  -- The status and the body, and the socket.
  abbrev pub Answer : Type 0
  Answer = Option (Ending (ℕ × Bytes) × lib.Socket)

  abbrev whole_body : ℕ → Bulks → Answer
  whole_body status none = none
  whole_body status (some (done chunks, socket)) = some (done (status, concat chunks), socket)
  whole_body status (some (failed e, socket)) = some (failed e, socket)
  whole_body status (some (panics, socket)) = some (panics, socket)

  -- `read_response` from a socket, which `read_body` has seen to be there.
  -- Its loop, with the rounds that are left and the number of this one: the
  -- bytes, the place behind the headers and the status, both 0 where no round completes them.
  unfoldable pub read_headers : ℕ → ℕ → Bytes → lib.Socket → Ending (Bytes × ℕ × ℕ) × lib.Socket
  read_headers zero i bulk socket = (done (bulk, 0, 0), socket)
  read_headers (suc rounds) i bulk socket = elim (lib.read_buf socket) [
    | none ↦ (failed request_error, socket)
    | some (buf, socket') ↦ elim (lib.parse_response (128 * i) (bulk ++ buf)) [
      | none ↦ (failed request_error, socket')
      | some partial ↦ read_headers rounds (i + 1) (bulk ++ buf) socket'
      | some (complete pos status) ↦ (done (bulk ++ buf, pos, status), socket')
    ]
  ]

  abbrev read_body_of : ℕ → Ending (Bytes × ℕ × ℕ) × lib.Socket → Answer
  read_body_of fuel (failed e, socket) = some (failed e, socket)
  read_body_of fuel (panics, socket) = some (panics, socket)
  read_body_of fuel (done (bulk, pos, status), socket) =
      whole_body status (read_bulks fuel (drop pos bulk) socket)

  unfoldable pub read_response : ℕ → lib.Socket → Answer
  read_response fuel stream = read_body_of fuel (read_headers 9 1 [] stream)
