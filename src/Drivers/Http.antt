-- ===== src/Drivers/Http.antt =====
-- crates/blockless-drivers/src/http_driver/reqwest_driver.rs: the HTTP driver, with the handles of
-- its responses. The JSON library, the texts of header names and values, and the network are
-- parameters; the client is built with the timeouts, which is taken to succeed.
pub mod Streams
pub mod Bodies
pub mod Requests
use bls_runtime.Prelude.{
  ℕ, ◌+◌, ◌%◌, Bool, true, false, Option, none, some, List, [], ◌∷◌, Bytes, codes, if◌then◌else◌,
  u32_mod,
}
use bls_runtime.Prelude.Assoc.{Assoc, lookup, insert, remove, has_key, nat_eq}
use bls_runtime.Prelude.Text.{bytes_eq, bytes_beq}
use bls_runtime.Prelude.Result.{Result, ok, err, ◌>>=◌, ok_or}
use bls_runtime.Drivers.Http.Streams.{Item, StreamState, stream_read}

pub data HttpErrorKind : Type 0 where
  invalid_driver invalid_handle memory_access_error buffer_too_small : HttpErrorKind
  header_not_found utf8_error destination_not_allowed invalid_method : HttpErrorKind
  invalid_encoding invalid_url request_error headers_validation_error : HttpErrorKind
  runtime_error too_many_sessions permission_deny : HttpErrorKind

pub data Method : Type 0 where
  get post : Method

-- What is given to the client, its timeouts in seconds.
pub record Request : Type 0 where
  pub method : Method
  pub url : Bytes
  pub headers : Assoc Bytes Bytes
  pub body : Bytes
  pub connect_timeout : Option ℕ
  pub read_timeout : Option ℕ

-- The libraries: JSON, where `index` gives null for what is missing and `entries` the members of an
-- object; the texts that are header names and values; and the client.
pub record Library : Type 1 where
  pub Json : Type 0
  pub parse : Bytes → Option Json
  pub index : Json → Bytes → Json
  pub as_str : Json → Option Bytes
  pub as_u64 : Json → Option ℕ
  pub entries : Json → Option (List (Bytes × Json))
  pub to_lowercase : Bytes → Bytes
  pub header_name : Bytes → Option Bytes
  pub header_value : Bytes → Option Bytes
  pub Response : Type 0
  pub send : Request → Option Response
  pub status : Response → ℕ
  pub HeaderValue : Type 0
  pub header : Response → Bytes → Option HeaderValue
  pub to_str : HeaderValue → Option Bytes
  pub bytes_stream : Response → List Item

abbrev pub unwrap_or_default : Option Bytes → Bytes
unwrap_or_default none = []
unwrap_or_default (some b) = b

module _ (lib : Library) where
  pub data HttpCtx : Type 0 where
    response : lib.Response → HttpCtx
    stream_state : StreamState → HttpCtx

  pub record Contexts : Type 0 where
    pub ctx : Assoc ℕ HttpCtx
    pub max_handle : ℕ

  -- The headers of the options, the later of one name in place of the earlier.
  unfoldable pub read_headers :
      List (Bytes × lib.Json) → Assoc Bytes Bytes → Result HttpErrorKind (Assoc Bytes Bytes)
  read_headers [] headers = ok headers
  read_headers ((key, value) ∷ entries) headers = do
    name ← ok_or headers_validation_error (lib.header_name key)
    text ← ok_or headers_validation_error (lib.header_value (unwrap_or_default (lib.as_str value)))
    read_headers entries (insert name text headers)

  abbrev object_headers :
      Option (List (Bytes × lib.Json)) → Result HttpErrorKind (Assoc Bytes Bytes)
  object_headers none = ok []
  object_headers (some entries) = read_headers entries []

  abbrev to_method : Bytes → Result HttpErrorKind Method
  to_method m =
      if bytes_beq m (codes "get")
      then ok get
      else if bytes_beq m (codes "post")
      then ok post
      else err request_error

  -- The part of `http_req` in front of the network.
  unfoldable pub build_request : Bytes → Bytes → Result HttpErrorKind Request
  build_request url opts = do
    json ← ok_or request_error (lib.parse opts)
    method ← ok_or request_error (lib.as_str (lib.index json (codes "method")))
    header_obj ←
        ok_or headers_validation_error
          (lib.parse (unwrap_or_default (lib.as_str (lib.index json (codes "headers")))))
    headers ← object_headers (lib.entries header_obj)
    req_method ← to_method (lib.to_lowercase method)
    ok (record {
      method = req_method;
      url = url;
      headers = headers;
      body = unwrap_or_default (lib.as_str (lib.index json (codes "body")));
      connect_timeout = lib.as_u64 (lib.index json (codes "connectTimeout"));
      read_timeout = lib.as_u64 (lib.index json (codes "readTimeout"));
    })

  -- The next handle; the counter wraps.
  unfoldable pub increase_fd : Contexts → ℕ × Contexts
  increase_fd s = let fd = (s.max_handle + 1) % u32_mod in (fd, record s { max_handle = fd })

  abbrev put : ℕ → HttpCtx → Contexts → Contexts
  put fd c s = record s { ctx = insert fd c s.ctx }

  -- The response gets a handle.
  unfoldable pub keep_response : lib.Response → Contexts → Result HttpErrorKind (ℕ × ℕ) × Contexts
  keep_response resp s =
      let (fd, s') = increase_fd s in (ok (fd, lib.status resp), put fd (response resp) s')

  unfoldable pub http_req : Bytes → Bytes → Contexts → Result HttpErrorKind (ℕ × ℕ) × Contexts
  http_req url opts s = elim (build_request url opts) [
    | err e ↦ (err e, s)
    | ok req ↦ elim (lib.send req) [
      | none ↦ (err runtime_error, s)
      | some resp ↦ keep_response resp s
    ]
  ]

  abbrev head_text : Option lib.HeaderValue → Result HttpErrorKind Bytes
  head_text none = err header_not_found
  head_text (some h) = ok_or invalid_encoding (lib.to_str h)

  unfoldable pub http_read_head : ℕ → Bytes → Contexts → Result HttpErrorKind Bytes
  http_read_head fd head s = elim (lookup fd s.ctx) [
    | none ↦ err invalid_handle
    | some (stream_state st) ↦ err runtime_error
    | some (response resp) ↦ head_text (lib.header resp head)
  ]

  -- A read of a stream that is not in the table, which goes back into it: `none` where the loop of
  -- the read gives no answer.
  unfoldable pub read_stream :
      ℕ → StreamState → Bytes → Contexts → Option (Result HttpErrorKind ℕ × Bytes × Contexts)
  read_stream fd st dest s = elim (stream_read st dest) [
    | none ↦ none
    | some (readn, dest', st') ↦ some (ok (readn % u32_mod), dest', put fd (stream_state st') s)
  ]

  unfoldable pub http_read_body :
      ℕ → Bytes → Contexts → Option (Result HttpErrorKind ℕ × Bytes × Contexts)
  http_read_body fd dest s =
      let s' : Contexts = record s { ctx = remove fd s.ctx } in
      elim (lookup fd s.ctx) [
        | none ↦ some (err invalid_handle, dest, s')
        | some (response resp) ↦
            read_stream fd (record { stream = lib.bytes_stream resp; buffer = none }) dest s'
        | some (stream_state st) ↦ read_stream fd st dest s'
      ]

  unfoldable pub http_close : ℕ → Contexts → Result HttpErrorKind (Unit {0}) × Contexts
  http_close fd s =
      if has_key fd s.ctx
      then (ok tt, record s { ctx = remove fd s.ctx })
      else (err invalid_handle, s)
