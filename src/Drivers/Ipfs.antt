-- ===== src/Drivers/Ipfs.antt =====
-- crates/blockless-drivers/src/ipfs_driver (mod.rs, api.rs, file.rs) with read_ext.rs: the IPFS
-- driver, a client of the HTTP interface of a local node, with the handles of its responses. The
-- JSON library, the URL encoding, the random boundary and the client of the simple requests are
-- parameters, next to those of Drivers.Ipfs.HttpRaw.
pub mod HttpRaw
pub mod Bodies
use bls_runtime.Prelude.{
  ℕ, ◌+◌, ◌-◌, ◌%◌, Bool, true, false, Option, none, some, List, [], ◌∷◌, ◌++◌, Bytes, codes,
  if◌then◌else◌, leb, ◌==◌, length, take, drop, u32_mod,
}
use bls_runtime.Prelude.Assoc.{Assoc, lookup, insert, remove, nat_eq}
use bls_runtime.Prelude.Text.{bytes_beq}
use bls_runtime.Drivers.Ipfs.HttpRaw.{
  IpfsErrorKind, invalid_handle, invalid_method, invalid_parameter, request_error, runtime_error,
  Ending, done, failed, panics, Library, HttpRaw as RawRequest, from_url, connect, is_connect,
  write_boundary, read_response,
}

pub record Response : Type 0 where
  pub status : ℕ
  pub body : Option Bytes
  pub read_p : ℕ

abbrev pub body_of : Option Bytes → Bytes
body_of none = []
body_of (some b) = b

-- `ReadRemain::copy_remain` into a buffer of this length: what is put at its front, and the
-- response behind it.
unfoldable pub copy_remain : ℕ → Response → Bytes × Response
copy_remain len r =
    let remain = length (body_of r.body) - r.read_p in
    let size = if leb remain len then remain else len in
    if remain == 0
    then ([], r)
    else (take size (drop r.read_p (body_of r.body)), record r { read_p = r.read_p + size })

-- The client of the simple requests, whose body may be lost behind the status, and what a command
-- is read with: a name or a value is a text, as the JSON library gives it, or not one.
pub record Client : Type 1 where
  pub Json : Type 0
  pub parse : Bytes → Option Json
  pub index : Json → Bytes → Json
  pub as_str : Json → Option Bytes
  pub array : Json → Option (List Json)
  pub arg_name : Json → Option Bytes
  pub arg_value : Json → Option Bytes
  pub urlencoded : List (Bytes × Bytes) → Option Bytes
  pub post : Bytes → Option (ℕ × Option Bytes)
  pub gen_boundary : Bytes

infixl 5 ◌>>=◌
abbrev ◌>>=◌ {ℓ κ} : {A : Type ℓ} {B : Type κ} → Ending A → (A → Ending B) → Ending B
done a >>= f = f a
failed e >>= f = failed e
panics >>= f = panics

abbrev ok_or {ℓ} : {A : Type ℓ} → IpfsErrorKind → Option A → Ending A
ok_or e none = failed e
ok_or e (some a) = done a

module _ (lib : Library) (client : Client) where
  pub data ApiCtx : Type 0 where
    response : Response → ApiCtx
    http_raw : RawRequest lib → ApiCtx

  pub record Contexts : Type 0 where
    pub ctx : Assoc ℕ ApiCtx
    pub max_handle : ℕ

  abbrev with_args : Bytes → Option Bytes → Bytes
  with_args url none = url
  with_args url (some args) = url ++ (b'?' ∷ args)

  -- `Api::build_url` for the node that the driver knows
  unfoldable pub build_url : Bytes → Bytes
  build_url api = codes "http://127.0.0.1:5001/" ++ api

  abbrev to_response : ℕ × Option Bytes → Ending ApiCtx
  to_response (status, none) = failed runtime_error
  to_response (status, some bytes) =
      done (response (record { status = status; body = some bytes; read_p = 0 }))

  unfoldable pub simple_post : Bytes → Option Bytes → Ending ApiCtx
  simple_post api args = do
    answer ← ok_or request_error (client.post (with_args (build_url api) args))
    to_response answer

  unfoldable pub multipart_raw : Bytes → Option Bytes → Ending ApiCtx
  multipart_raw api args = do
    http ← from_url lib (with_args (build_url api) args)
    let boundary = codes "------------------------" ++ client.gen_boundary
    raw ← connect lib (record http { boundary = some boundary; method = codes "POST" })
    done (http_raw raw)

  -- The pairs of the arguments; one that is not of the form is refused.
  unfoldable pub read_args : List client.Json → Ending (List (Bytes × Bytes))
  read_args [] = done []
  read_args (v ∷ vs) = do
    name ← ok_or invalid_parameter (client.arg_name (client.index v (codes "name")))
    value ← ok_or invalid_parameter (client.arg_value (client.index v (codes "value")))
    rest ← read_args vs
    done ((name, value) ∷ rest)

  abbrev args_of : Option (List client.Json) → Ending (Option Bytes)
  args_of none = done none
  args_of (some arr) = do
    kv ← read_args arr
    args ← ok_or invalid_parameter (client.urlencoded kv)
    done (some args)

  -- The methods of `FileApi`.
  unfoldable pub call_api : Bytes → Option Bytes → Ending ApiCtx
  call_api api args =
      if bytes_beq api (codes "files/ls")
      then simple_post (codes "api/v0/files/ls") args
      else if bytes_beq api (codes "files/mkdir")
      then simple_post (codes "api/v0/files/mkdir") args
      else if bytes_beq api (codes "files/rm")
      then simple_post (codes "api/v0/files/rm") args
      else if bytes_beq api (codes "files/stat")
      then simple_post (codes "api/v0/files/stat") args
      else if bytes_beq api (codes "files/read")
      then simple_post (codes "api/v0/files/read") args
      else if bytes_beq api (codes "files/write")
      then multipart_raw (codes "api/v0/files/write") args
      else failed invalid_method

  unfoldable pub inner_command : Bytes → Ending ApiCtx
  inner_command cmd = do
    json ← ok_or invalid_parameter (client.parse cmd)
    api ← ok_or invalid_parameter (client.as_str (client.index json (codes "api")))
    args ← args_of (client.array (client.index json (codes "args")))
    call_api api args

  abbrev status_of : ApiCtx → ℕ
  status_of (response r) = r.status
  status_of (http_raw raw) = 0

  abbrev put : ℕ → ApiCtx → Contexts → Contexts
  put fd c s = record s { ctx = insert fd c s.ctx }

  -- The answer gets the next handle; the counter wraps.
  unfoldable pub keep_ctx : ApiCtx → Contexts → Ending (ℕ × ℕ) × Contexts
  keep_ctx c s =
      let fd = (s.max_handle + 1) % u32_mod in
      (done (status_of c, fd), put fd c (record s { max_handle = fd }))

  unfoldable pub command : Bytes → Contexts → Ending (ℕ × ℕ) × Contexts
  command cmd s = elim (inner_command cmd) [
    | done c ↦ keep_ctx c s
    | failed e ↦ (failed e, s)
    | panics ↦ (panics, s)
  ]

  -- A handle that is not there is closed too.
  unfoldable pub close : ℕ → Contexts → Ending (Unit {0}) × Contexts
  close handle s = (done tt, record s { ctx = remove handle s.ctx })

  abbrev written : ℕ → Ending (ℕ × RawRequest lib) → Contexts → Ending ℕ × Contexts
  written handle (done (n, raw)) s = (done (n % u32_mod), put handle (http_raw raw) s)
  written handle (failed e) s = (failed e, s)
  written handle panics s = (panics, s)

  unfoldable pub write_ctx : ℕ → Bytes → ApiCtx → Contexts → Ending ℕ × Contexts
  write_ctx handle buf (http_raw raw) s =
      if is_connect lib raw
      then written handle (write_boundary lib buf raw) s
      else (failed invalid_handle, s)
  write_ctx handle buf (response r) s = (failed invalid_handle, s)

  unfoldable pub write_body : ℕ → Bytes → Contexts → Ending ℕ × Contexts
  write_body handle buf s =
      if length buf == 0 then (failed invalid_parameter, s) else elim (lookup handle s.ctx) [
        | none ↦ (failed invalid_handle, s)
        | some c ↦ write_ctx handle buf c s
      ]

  -- A read: the number that is answered, and what is put at the front of the buffer.
  abbrev pub Read : Type 0
  Read = Option (Ending (ℕ × Bytes) × Contexts)

  -- The response to a write is read whole, and of it only the status is looked at.
  abbrev status_read : Ending (ℕ × Bytes) → Ending (ℕ × Bytes)
  status_read (done (status, body)) = if status == 200 then done (0, []) else failed request_error
  status_read (failed e) = failed e
  status_read panics = panics

  abbrev after_response :
      ℕ → RawRequest lib → Option (Ending (ℕ × Bytes) × lib.Socket) → Contexts → Read
  after_response handle raw none s = none
  after_response handle raw (some (ending, socket)) s =
      some (status_read ending, put handle (http_raw (record raw { tcp_stream = some socket })) s)

  unfoldable pub read_ctx : ℕ → ℕ → ℕ → ApiCtx → Contexts → Read
  read_ctx fuel handle len (response r) s =
      let (piece, r') = copy_remain len r in
      some (done (length piece % u32_mod, piece), put handle (response r') s)
  read_ctx fuel handle len (http_raw raw) s = elim raw.tcp_stream [
    | none ↦ some (failed invalid_handle, s)
    | some stream ↦ after_response handle raw (read_response lib fuel stream) s
  ]

  -- The buffer has this length.
  unfoldable pub read_body : ℕ → ℕ → ℕ → Contexts → Read
  read_body fuel handle len s =
      if len == 0 then some (failed invalid_parameter, s) else elim (lookup handle s.ctx) [
        | none ↦ some (failed invalid_handle, s)
        | some c ↦ read_ctx fuel handle len c s
      ]
