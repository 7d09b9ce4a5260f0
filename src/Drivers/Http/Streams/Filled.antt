-- ===== src/Drivers/Http/Streams/Filled.antt =====
-- A read fills its destination from the bytes that are left of a body.
use bls_runtime.Prelude.{
  ℕ, zero, suc, ◌+◌, ◌-◌, ◌≤◌, ◌<◌, ◌≡◌, refl, ap, sym, ◌∙◌, Option, none, some, List, [], ◌∷◌,
  ◌++◌, append_assoc, Bytes, length, take, drop, min, arith, inl, inr, length-append, length-drop,
  drop-all, drop-add, take-append_le, take-append_ge, drop-append_le, drop-append_ge,
}
use bls_runtime.Drivers.Http.Streams.{
  Item, chunk, failure, StreamState, Answer, read_round, stream_loop, stream_read,
}
use bls_runtime.Drivers.Http.Streams.Rounds.{
  bytes_of, behind, or_empty, content, fill, Left, Ends, Continues, read_chunk-Ends,
  read_buffer-Ends, read_chunk-Continues, read_buffer-Continues, take_nil, le_cases,
}

-- What bytes in front of others do to a free slice: they fill it, or they leave room.
fill_full : (b c room : Bytes) → length room ≤ length b → fill (b ++ c) room ≡ fill b room
fill_full b c room h =
    let le : length room ≤ length (b ++ c) = omega (arith, length-append b c, h) in
    rw (drop-all (length (b ++ c)) room le, drop-all (length b) room h)
      (ap (λ t. t ++ []) (take-append_le (length room) b c h))

fill_more :
    (b c room : Bytes)
    → length b ≤ length room
    → fill (b ++ c) room ≡ b ++ fill c (drop (length b) room)
fill_more b c room h =
    rw
      (
        length-append b c,
        drop-add (length b) (length c) room,
        take-append_ge (length room) b c h,
        length-drop (length b) room,
      )
      (append_assoc b (take (length room - length b) c) (drop (length c) (drop (length b) room)))

dropped :
    (b c room : Bytes)
    → length b ≤ length room
    → drop (length room) (b ++ c) ≡ drop (length (drop (length b) room)) c
dropped b c room h = rw (length-drop (length b) room) (drop-append_ge (length room) b c h)

-- The whole of a read behind `out`.
abbrev Reads : List Item → Bytes → Bytes → Bytes → Option Answer → Type 0
Reads items c out room answer =
    (s' : StreamState) × (answer
      ≡ some (length out + min (length room) (length c), out ++ fill c room, s'))
    × Left (length room) c items s'

-- A round that ends the read.
ends_read :
    (again : StreamState → ℕ → Bytes → Option Answer) (items : List Item) (b out room : Bytes)
    (answer : Option Answer)
    → length room ≤ length b
    → Ends again items b out room answer
    → Reads items (b ++ bytes_of items) out room answer
unfolding Ends
ends_read again items b out room answer h (s', e, same, left) =
    let c : Bytes = bytes_of items in
    let size : min (length room) (length (b ++ c)) ≡ length room =
      ground (arith, length-append b c, h) in
    (
      s',
      e ∙ (λ i. some (length out + sym size i, out ++ sym (fill_full b c room h) i, s')),
      (
        (λ le. (rw (left, same) (sym (drop-append_le (length room) b c h)), ap behind same)),
        λ lt. absurd (omega (arith, length-append b c, lt, h)),
      ),
    )

-- A round that goes on.
continues_read :
    (items : List Item) (b out room : Bytes) (answer : Option Answer)
    → length b < length room
    → Reads items (bytes_of items) (out ++ b) (drop (length b) room) answer
    → Reads items (b ++ bytes_of items) out room answer
continues_read items b out room answer h (s', e, left) =
    let c : Bytes = bytes_of items in
    let room' : Bytes = drop (length b) room in
    let size : length (out ++ b) + min (length room') (length c)
        ≡ length out + min (length room) (length (b ++ c)) =
      ground (arith, length-append b c, length-append out b, length-drop (length b) room, h) in
    let copied : (out ++ b) ++ fill c room' ≡ out ++ fill (b ++ c) room =
      append_assoc out b (fill c room')
      ∙ ap (◌++◌ out) (sym (fill_more b c room (omega (arith, h)))) in
    (
      s',
      e ∙ (λ i. some (size i, copied i, s')),
      (
        (λ le.
            let (rest, same) =
              left.0 (ground (arith, length-append b c, length-drop (length b) room, h, le)) in
            (rest ∙ sym (dropped b c room (omega (arith, h))), same)),
        λ lt. left.1 (ground (arith, length-append b c, length-drop (length b) room, h, lt)),
      ),
    )

-- A read without a buffer, on fuel for each item and one.
read_items :
    (items : List Item) (fuel : ℕ) (out room : Bytes)
    → length items < fuel
    → 0 < length room
    → Reads items
        (bytes_of items)
        out
        room
        (stream_loop fuel (record { stream = items; buffer = none }) (length out) (out ++ room))
unfolding stream_loop read_round Continues
read_items items zero out room h free = absurd (omega arith)
read_items [] (suc fuel) out room h free =
    let whole : length out ≡ length out + min (length room) 0 = ground (arith, free) in
    let none_yet : take (length room) [] ++ room ≡ room = take_nil (length room) room in
    (
      record { stream = []; buffer = none },
      λ i. some (whole i, out ++ sym none_yet i, record { stream = []; buffer = none }),
      ((λ le. absurd (omega (arith, le, free))), λ lt. refl),
    )
read_items (failure ∷ items) (suc fuel) out room h free =
    let whole : length out ≡ length out + min (length room) 0 = ground (arith, free) in
    let none_yet : take (length room) [] ++ room ≡ room = take_nil (length room) room in
    (
      record { stream = items; buffer = none },
      λ i. some (whole i, out ++ sym none_yet i, record { stream = items; buffer = none }),
      ((λ le. absurd (omega (arith, le, free))), λ lt. refl),
    )
read_items (chunk b ∷ items) (suc fuel) out room h free = elim (le_cases (length room) (length b)) [
  | inl full ↦
      ends_read (stream_loop fuel) items b out room _ full
        (read_chunk-Ends (stream_loop fuel) items b out room full)
  | inr more ↦
      let free' : 0 < length (drop (length b) room) =
        omega (arith, length-drop (length b) room, more) in
      continues_read items b out room _ more (
        rw (read_chunk-Continues (stream_loop fuel) items b out room more)
          (read_items items fuel (out ++ b) (drop (length b) room) (omega (arith, h)) free'))
]

read_all :
    (items : List Item) (buffer : Option Bytes) (fuel : ℕ) (dest : Bytes)
    → length items < fuel
    → 0 < length dest
    → Reads items
        (or_empty buffer ++ bytes_of items)
        []
        dest
        (stream_loop (suc fuel) (record { stream = items; buffer = buffer }) 0 dest)
unfolding stream_loop read_round Continues
read_all items none fuel dest h free = read_items items (suc fuel) [] dest (omega arith) free
read_all items (some b) fuel dest h free = elim (le_cases (length dest) (length b)) [
  | inl full ↦
      ends_read (stream_loop fuel) items b [] dest _ full
        (read_buffer-Ends (stream_loop fuel) items b [] dest full)
  | inr more ↦
      let free' : 0 < length (drop (length b) dest) =
        omega (arith, length-drop (length b) dest, more) in
      continues_read items b [] dest _ more (
        rw (read_buffer-Continues (stream_loop fuel) items b [] dest more)
          (read_items items fuel b (drop (length b) dest) h free'))
]

-- The loop of a read ends, and never reaches `unreachable!`. What is left of a body goes to the
-- front of a destination that is not empty, as much of it as fits; the number that comes back is
-- that many bytes, and the rest of the destination stays. Where the bytes in front of an error of
-- the network do not fill the destination, the error is passed over without a report, and the next
-- read goes on behind it; else the bytes that did not fit are what the next read starts with.
pub stream_read-fill :
    (s : StreamState) (dest : Bytes)
    → 0 < length dest
    → (s' : StreamState) × (stream_read s dest
        ≡ some (min (length dest) (length (content s)), fill (content s) dest, s'))
      × Left (length dest) (content s) s.stream s'
unfolding stream_read
stream_read-fill s dest free =
    let fuel : length s.stream + 2 ≡ suc (length s.stream + 1) = omega arith in
    let (s', e, left) = read_all s.stream s.buffer (length s.stream + 1) dest (omega arith) free in
    let size : 0 + min (length dest) (length (content s)) ≡ min (length dest) (length (content s)) =
      omega arith in
    (s', rw fuel (e ∙ (λ i. some (size i, fill (content s) dest, s'))), left)
