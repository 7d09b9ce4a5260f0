-- ===== src/Drivers/Http/Streams.antt =====
-- crates/blockless-drivers/src/http_driver/reqwest_driver.rs, `stream_read`: a read takes what the
-- last read left over, and then the pieces of a body as the network gives them.
pub mod Rounds
pub mod Filled
use bls_runtime.Prelude.{
  ℕ, zero, suc, ◌+◌, Bool, Option, none, some, List, [], ◌∷◌, ◌++◌, Bytes, if◌then◌else◌, leb, ltb,
  ◌==◌, length, take, drop, min,
}

-- What the stream of a body gives when it is polled: bytes, or an error of the network. Behind the
-- last item the stream has ended.
pub data Item : Type 0 where
  chunk : Bytes → Item
  failure : Item

pub record StreamState : Type 0 where
  pub stream : List Item
  pub buffer : Option Bytes

-- `read_call` on the rest of a chunk and a slice of the destination: the number that it returns,
-- what is left of the chunk, and the slice.
unfoldable pub read_call : Bytes → Bytes → ℕ × Bytes × Bytes
read_call buffer dest =
    let remaining = length buffer in
    let n = min (length dest) remaining in
    let (rest, filled) =
      (if ltb 0 remaining then (drop n buffer, take n buffer ++ drop n dest) else (buffer, dest)) in
    (
      if leb (length dest) remaining then length dest else if ltb 0 remaining then remaining else 0,
      rest,
      filled,
    )

-- The number of bytes read, the destination, and the state behind the read.
abbrev pub Answer : Type 0
Answer = ℕ × Bytes × StreamState

module _ (again : StreamState → ℕ → Bytes → Option Answer) where
  -- The branch with a buffer.
  unfoldable pub read_buffer : List Item → Bytes → ℕ → Bytes → Option Answer
  read_buffer items buffer readn dest =
      let (n, rest, slice) = read_call buffer (drop readn dest) in
      let dest' = take readn dest ++ slice in
      let readn' = (if leb (n + readn) (length dest) then readn + n else readn) in
      let s : StreamState = record {
        stream = items;
        buffer = if length rest == 0 then none else some rest;
      } in
      if length dest == readn' then some (readn', dest', s) else again s readn' dest'

  -- The branch without one, at a chunk.
  unfoldable pub read_chunk : List Item → Bytes → ℕ → Bytes → Option Answer
  read_chunk items bytes readn dest =
      let (n, rest, slice) = read_call bytes (drop readn dest) in
      let dest' = take readn dest ++ slice in
      let s : StreamState = record {
        stream = items;
        buffer = if ltb 0 (length rest) then some rest else none;
      } in
      if length dest == readn + n
      then some (readn + n, dest', s)
      else if ltb (readn + n) (length dest)
      then again s (readn + n) dest'
      else none

  unfoldable pub read_round : List Item → Option Bytes → ℕ → Bytes → Option Answer
  read_round items (some buffer) readn dest = read_buffer items buffer readn dest
  read_round [] none readn dest = some (readn, dest, record { stream = []; buffer = none })
  read_round (failure ∷ items) none readn dest =
      some (readn, dest, record { stream = items; buffer = none })
  read_round (chunk bytes ∷ items) none readn dest = read_chunk items bytes readn dest

-- The loop on fuel; `none` means that the fuel ran out, or that the code reached `unreachable!`.
unfoldable pub stream_loop : ℕ → StreamState → ℕ → Bytes → Option Answer
stream_loop zero s readn dest = none
stream_loop (suc fuel) s readn dest = read_round (stream_loop fuel) s.stream s.buffer readn dest

-- A round for each item, one for the buffer and one for the end.
unfoldable pub stream_read : StreamState → Bytes → Option Answer
stream_read s dest = stream_loop (length s.stream + 2) s 0 dest
