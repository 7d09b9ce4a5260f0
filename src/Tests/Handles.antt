-- ===== src/Tests/Handles.antt =====
-- The table of handles, the arrays of strings, and the handles of a built context.
use bls_runtime.Prelude.{
  ℕ, ◌≡◌, refl, Option, some, none, List, [], ◌∷◌, Bytes, codes, arith, ◌==◌, if◌then◌else◌, ltb,
  leb, ◌&&◌,
}
use bls_runtime.Prelude.Assoc.{nat_eq, lookup, has_key, insert}
use bls_runtime.Wasi.Errno.{ok}
use bls_runtime.Wasi.Table.{Arc, Inner, push}
use bls_runtime.Wasi.Table.Push.{Pushed, push_finds_free}
use bls_runtime.Wasi.StringArray.{StringArray, Guest, write_to_guest}
use bls_runtime.Wasi.StringArray.Bounds.{IsValid}
use bls_runtime.Wasi.StringArray.Layout.{layout, write_to_guest-layout}

abbrev file : Arc ℕ
file = record { value = 70; strong = 1 }

abbrev socket_entry : Arc ℕ
socket_entry = record { value = 80; strong = 1 }

-- The counter stands on the last key, which is taken, as is the first: a push wraps around.
abbrev wrapping : Inner ℕ
wrapping = record { map = (4294967295, file) ∷ (0, socket_entry) ∷ []; next_key = 4294967295 }

push_wraps :
    push file wrapping
    ≡ some (
      ok 1,
      record { map = (4294967295, file) ∷ (0, socket_entry) ∷ (1, file) ∷ []; next_key = 2 },
    )
unfolding push has_key insert
push_wraps = refl

push_finds_free_example :
    (k : ℕ) × (t' : Inner ℕ) × (push file wrapping ≡ some (ok k, t')) × Pushed file wrapping k t'
push_finds_free_example = push_finds_free file wrapping (omega arith) (omega arith)

abbrev as_file : ℕ → Option ℕ
as_file n = if n == 70 then some n else none

file_there : lookup 4294967295 wrapping.map ≡ some file
unfolding lookup
file_there = refl

abbrev arguments : List Bytes
arguments = codes "app" ∷ codes "-v" ∷ []

abbrev array : StringArray
array = record { elems = arguments }

array-IsValid : IsValid array
array-IsValid = record { few = omega arith; short = omega arith }

-- A memory that records its writes: the offset and the bytes of each.
abbrev recorder : Guest
recorder = record {
  Memory = List (ℕ × Bytes);
  get_range = λ len from to. if leb from to && leb to len then some from else none;
  get = λ len i. if ltb i len then some i else none;
  copy_from_slice = λ m at s. ok ((at, s) ∷ m);
  write_byte = λ m at b. ok ((at, b ∷ []) ∷ m);
  write_head = λ m i at. ok ((i, at ∷ []) ∷ m);
  get_range-some = λ len from to h k. ground arith;
  get-some = λ len i h. ground arith;
}

write_to_guest-layout_example : write_to_guest recorder array [] ≡ layout recorder 0 0 arguments []
write_to_guest-layout_example = write_to_guest-layout recorder array [] array-IsValid
