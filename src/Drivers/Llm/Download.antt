-- ===== src/Drivers/Llm/Download.antt =====
-- crates/blockless-drivers/src/llm_driver/llamafile.rs, `download_model`: a download that goes on
-- where an earlier one stopped. The state is the partial file and the model file; the server, and
-- which calls of the file system succeed, are parameters. The size of an existing file can be
-- read, and an error of a write is one of the stream. The progress messages are left out.
pub mod Resumed
use bls_runtime.Prelude.{
  ℕ, Bool, true, false, ◌&&◌, Option, none, some, List, [], ◌∷◌, ◌++◌, Bytes, ltb, leb, ◌==◌,
  if◌then◌else◌, length,
}
use bls_runtime.Prelude.Result.{Result, ok, err}
use bls_runtime.Drivers.Http.Streams.{Item, chunk, failure}

pub data ProviderError : Type 0 where
  initialization_failed server_response_error communication_error : ProviderError
  invalid_response stream_error llama_file_server_error shutdown_error : ProviderError

-- The answer to a HEAD request, with the two headers that can tell the size, and the answer to a
-- GET request with what its body gives.
pub record Head : Type 0 where
  pub status : ℕ
  pub linked_size : Option ℕ
  pub content_length : Option ℕ

pub record Response : Type 0 where
  pub is_success : Bool
  pub chunks : List Item

-- The server of one URL: a GET request can ask for the bytes from an offset on. `none` is an error
-- of the network.
pub record Server : Type 0 where
  pub head : Option Head
  pub get : Option ℕ → Option Response

-- Which calls of the file system succeed.
pub record Disk : Type 0 where
  pub has_parent : Bool
  pub create_dir_all : Bool
  pub opens : Bool
  pub creates : Bool
  pub syncs : Bool
  pub renames : Bool
  pub sets_mode : Bool

pub record Files : Type 0 where
  pub part : Option Bytes
  pub model : Option Bytes
  pub executable : Bool

abbrev pub Outcome : Type 0
Outcome = Result ProviderError (Unit {0}) × Files

abbrev or_else : Option ℕ → Option ℕ → Option ℕ
or_else none o = o
or_else (some n) o = some n

abbrev or_zero : Option ℕ → ℕ
or_zero none = 0
or_zero (some n) = n

abbrev pub total_size : Head → ℕ
total_size h = or_zero (or_else h.linked_size h.content_length)

abbrev pub size_of : Option Bytes → ℕ
size_of none = 0
size_of (some b) = length b

abbrev pub bytes_in : Option Bytes → Bytes
bytes_in none = []
bytes_in (some b) = b

-- The loop over the chunks: whether the body ended, and the file.
unfoldable pub receive : List Item → Bytes → Bool × Bytes
receive [] file = (true, file)
receive (failure ∷ items) file = (false, file)
receive (chunk b ∷ items) file = receive items (file ++ b)

module _ (disk : Disk) where
  -- The permissions of the model file.
  unfoldable pub set_executable : Files → Outcome
  set_executable f =
      if disk.sets_mode
      then (ok tt, record f { executable = true })
      else (err initialization_failed, f)

  -- The partial file becomes the model file.
  unfoldable pub finalize : Files → Outcome
  finalize f =
      if disk.renames
      then set_executable (record { part = none; model = f.part; executable = false })
      else (err initialization_failed, f)

  abbrev synced : Files → Outcome
  synced f = if disk.syncs then finalize f else (err stream_error, f)

  -- What comes of the chunks, put behind what the partial file has.
  unfoldable pub append_chunks : List Item → Files → Outcome
  append_chunks items f =
      let (done, file) = receive items (bytes_in f.part) in
      let f' : Files = record f { part = some file } in
      if done then synced f' else (err stream_error, f')

  -- The request from an offset, with the partial file open.
  unfoldable pub fetch : Option Response → Files → Outcome
  fetch none f = (err server_response_error, f)
  fetch (some r) f =
      if r.is_success then append_chunks r.chunks f else (err server_response_error, f)

  module _ (server : Server) where
    -- A download that is not complete: a partial file is opened to append, or a new one made.
    unfoldable pub resume : ℕ → Files → Outcome
    resume file_size f =
        if ltb 0 file_size
        then (if disk.opens
            then fetch (server.get (some file_size)) f
            else (err initialization_failed, f))
        else if disk.creates
        then fetch (server.get none) (record f { part = some [] })
        else (err initialization_failed, f)

    unfoldable pub from_head : Option Head → Files → Outcome
    from_head none f = (err communication_error, f)
    from_head (some h) f =
        let file_size = size_of f.part in
        if leb 400 h.status
        then (err server_response_error, f)
        else if ltb 0 (total_size h) && (file_size == total_size h)
        then finalize f
        else resume file_size f

    unfoldable pub download_model : Files → Outcome
    download_model f =
        if disk.has_parent && disk.create_dir_all
        then from_head server.head f
        else (err initialization_failed, f)
