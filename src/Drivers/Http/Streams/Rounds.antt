-- ===== src/Drivers/Http/Streams/Rounds.antt =====
-- One round of a read: bytes that fill the destination end it, and fewer leave it to go on.
use bls_runtime.Prelude.{
  ℕ, zero, suc, ◌+◌, ◌≤◌, ◌<◌, ◌≡◌, refl, sym, ◌∙◌, true, false, Option, none, some, List, [], ◌∷◌,
  ◌++◌, append_assoc, Bytes, if◌then◌else◌, leb, ltb, ◌==◌, length, take, drop, min, arith,
  Bool-cases, inl, inr, ◌⊎◌, length-append, take-length, drop-length, take-all, drop-min,
  drop-min_left, take-min, drop-all,
}
use bls_runtime.Drivers.Http.Streams.{
  Item, chunk, failure, StreamState, read_call, Answer, read_buffer, read_chunk,
}

-- The bytes of the items in front of the first error, and the items behind it.
abbrev pub bytes_of : List Item → Bytes
bytes_of [] = []
bytes_of (failure ∷ items) = []
bytes_of (chunk b ∷ items) = b ++ bytes_of items

abbrev pub behind : List Item → List Item
behind [] = []
behind (failure ∷ items) = items
behind (chunk b ∷ items) = behind items

abbrev pub or_empty : Option Bytes → Bytes
or_empty none = []
or_empty (some b) = b

-- What is left to read of a body.
abbrev pub content : StreamState → Bytes
content s = or_empty s.buffer ++ bytes_of s.stream

-- What a read of `c` makes of a destination.
abbrev pub fill : Bytes → Bytes → Bytes
fill c dest = take (length dest) c ++ drop (length c) dest

-- The state behind a read of `n` bytes: where they are all in front of the first error, the rest
-- is left; else the error is passed too, and the items behind it are left.
abbrev pub Left : ℕ → Bytes → List Item → StreamState → Type 0
Left n c items s' =
    (n ≤ length c → (content s' ≡ drop n c) × (behind s'.stream ≡ behind items))
    × (length c < n → s' ≡ record { stream = behind items; buffer = none })

-- `read_call` copies as much as there is and as fits.
read_call_lem :
    (b dest : Bytes)
    → read_call b dest ≡ (min (length dest) (length b), drop (length dest) b, fill b dest)
unfolding read_call
read_call_lem [] [] = refl
read_call_lem [] (x ∷ dest) = refl
read_call_lem (c ∷ b) dest =
    let some_left : ltb 0 (suc (length b)) ≡ true = ground arith in
    rw (some_left, read_call)
      (λ i. (
        min (length dest) (length (c ∷ b)),
        drop-min (length dest) (c ∷ b) i,
        take-min (length dest) (c ∷ b) i ++ drop-min_left (length (c ∷ b)) dest i,
      ))

or_empty_lem : (b : Bytes) → or_empty (if ltb 0 (length b) then some b else none) ≡ b
or_empty_lem [] = refl
or_empty_lem (c ∷ b) = let more : ltb 0 (suc (length b)) ≡ true = ground arith in rw more refl

or_empty-none : (b : Bytes) → or_empty (if length b == 0 then none else some b) ≡ b
or_empty-none [] = refl
or_empty-none (c ∷ b) = let more : (suc (length b) == 0) ≡ false = ground arith in rw more refl

pub take_nil : (n : ℕ) (xs : Bytes) → take n [] ++ xs ≡ xs
take_nil zero xs = refl
take_nil (suc n) xs = refl

pub le_cases : (a b : ℕ) → (a ≤ b) ⊎ (b < a)
le_cases a b = elim (Bool-cases (leb a b)) [
  | inl le ↦ inl (ground (arith, le))
  | inr lt ↦ inr (ground (arith, lt))
]

-- The two branches of a round, where `out` is filled and `room` is free.
module _ (again : StreamState → ℕ → Bytes → Option Answer) (items : List Item)
    (b out room : Bytes) where
  call :
      read_call b (drop (length out) (out ++ room))
      ≡ (min (length room) (length b), drop (length room) b, fill b room)
  call = rw (drop-length out room) (read_call_lem b room)

  read_chunk_lem : read_chunk again items b (length out) (out ++ room) ≡ (
      let s : StreamState = record {
        stream = items;
        buffer =
            if ltb 0 (length (drop (length room) b)) then some (drop (length room) b) else none;
      } in
      let n = min (length room) (length b) in
      if length (out ++ room) == length out + n
      then some (length out + n, out ++ fill b room, s)
      else if ltb (length out + n) (length (out ++ room))
      then again s (length out + n) (out ++ fill b room)
      else none)
  unfolding read_chunk
  read_chunk_lem = rw (call, take-length out room) refl

  read_buffer_lem : read_buffer again items b (length out) (out ++ room) ≡ (
      let rest = drop (length room) b in
      let n = min (length room) (length b) in
      let readn =
        (if leb (n + length out) (length (out ++ room)) then length out + n else length out) in
      let s : StreamState = record {
        stream = items;
        buffer = if length rest == 0 then none else some rest;
      } in
      if length (out ++ room) == readn
      then some (readn, out ++ fill b room, s)
      else again s readn (out ++ fill b room))
  unfolding read_buffer
  read_buffer_lem = rw (call, take-length out room) refl

  -- Bytes that leave no room end the read, and what is left of them is kept.
  unfoldable pub Ends : Option Answer → Type 0
  Ends answer =
      (s' : StreamState) × (answer ≡ some (length out + length room, out ++ fill b room, s'))
      × (s'.stream ≡ items)
      × (or_empty s'.buffer ≡ drop (length room) b)

  -- Bytes that leave room go behind `out`, and the next round has no buffer.
  unfoldable pub Continues : Option Answer → Type 0
  Continues answer =
      answer
      ≡ again (record { stream = items; buffer = none }) (length (out ++ b))
          ((out ++ b) ++ drop (length b) room)

  module _ (h : length room ≤ length b) where
    all_room : min (length room) (length b) ≡ length room
    all_room = ground (arith, h)

    ends : (length (out ++ room) == length out + length room) ≡ true
    ends = ground (arith, length-append out room)

    pub read_chunk-Ends : Ends (read_chunk again items b (length out) (out ++ room))
    unfolding Ends
    read_chunk-Ends =
        let s : StreamState = record {
          stream = items;
          buffer =
              if ltb 0 (length (drop (length room) b)) then some (drop (length room) b) else none;
        } in
        (s, read_chunk_lem ∙ rw (all_room, ends) refl, refl, or_empty_lem (drop (length room) b))

    pub read_buffer-Ends : Ends (read_buffer again items b (length out) (out ++ room))
    unfolding Ends
    read_buffer-Ends =
        let s : StreamState = record {
          stream = items;
          buffer = if length (drop (length room) b) == 0 then none else some (drop (length room) b);
        } in
        let within : leb (length room + length out) (length (out ++ room)) ≡ true =
          ground (arith, length-append out room) in
        (
          s,
          read_buffer_lem ∙ rw (all_room, within, ends) refl,
          refl,
          or_empty-none (drop (length room) b),
        )

  module _ (h : length b < length room) where
    all_bytes : min (length room) (length b) ≡ length b
    all_bytes = ground (arith, h)

    goes_on : (length (out ++ room) == length out + length b) ≡ false
    goes_on = ground (arith, length-append out room, h)

    nothing_left : drop (length room) b ≡ []
    nothing_left = drop-all (length room) b (omega (arith, h))

    behind_out :
        again
          (record { stream = items; buffer = none })
          (length out + length b)
          (out ++ fill b room)
        ≡ again
            (record { stream = items; buffer = none })
            (length (out ++ b))
            ((out ++ b) ++ drop (length b) room)
    behind_out =
        let copied : take (length room) b ≡ b = take-all (length room) b (omega (arith, h)) in
        rw copied (λ i.
          again (record { stream = items; buffer = none }) (sym (length-append out b) i)
            (sym (append_assoc out b (drop (length b) room)) i))

    pub read_chunk-Continues : Continues (read_chunk again items b (length out) (out ++ room))
    unfolding Continues
    read_chunk-Continues =
        let fits : ltb (length out + length b) (length (out ++ room)) ≡ true =
          ground (arith, length-append out room, h) in
        read_chunk_lem ∙ rw (all_bytes, nothing_left, goes_on, fits) behind_out

    pub read_buffer-Continues : Continues (read_buffer again items b (length out) (out ++ room))
    unfolding Continues
    read_buffer-Continues =
        let within : leb (length b + length out) (length (out ++ room)) ≡ true =
          ground (arith, length-append out room, h) in
        read_buffer_lem ∙ rw (all_bytes, nothing_left, within, goes_on) behind_out
