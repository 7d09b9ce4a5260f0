-- ===== src/Tests/Linked.antt =====
-- Modules that call one another, their linking, the drivers, and a poll.
use bls_runtime.Prelude.{
  ℕ, ◌≡◌, refl, Bool, true, Option, some, none, List, [], ◌∷◌, Bytes, codes, length, arith, leb,
  if◌then◌else◌,
}
use bls_runtime.Prelude.Text.{bytes_eq, bytes_beq, to_ascii_lowercase}
use bls_runtime.Multiaddr.{is_addr_token}
use bls_runtime.Multiaddr.Reading.{IsSchema, url}
use bls_runtime.Config.{BlocklessModule, library, entry_module_type}
use bls_runtime.Drivers.{insert_driver, find_driver}
use bls_runtime.Drivers.Finding.{find_driver-insert_driver}
use bls_runtime.Modules.{
  McallError, caller, callee, Machine, MemBuf, and_then, read_range, write_range, copy_to_slice,
  copy_from_slice, copy_from, call,
}
use bls_runtime.Prelude.{false}
use bls_runtime.Wasi.Errno.{Result, ok}
use bls_runtime.Wasi.Sched.{
  read, monotonic_clock, Revents, ready, Poll, all_pollable, poll_timeout, earliest_clock_deadline,
  results, returns, poll_oneoff,
}
use bls_runtime.Wasi.Sched.Results.{user_data, descriptors, reported, poll_oneoff-reported}
use bls_runtime.Modules.Call.{Buffer, erase, IsSound, call_releases}
use bls_runtime.Modules.Buffers.{copy_from-delivers}
use bls_runtime.Modules.Linking.{HostFunc, mcall, register, link_modules}
use bls_runtime.Modules.Linking.Order.{
  libraries, entries, instantiate_all, load_last, link_modules-order,
}

-- One memory for both sides, with the buffers that are held; an allocation gives the first bytes,
-- and the function does nothing.
abbrev Store : Type 0
Store = Bytes × List Buffer

abbrev first_alloc : ℕ → Store → Option ℕ × Store
first_alloc n (m, k) = if leb n (length m) then (some 0, (m, (0, n) ∷ k)) else (none, (m, k))

abbrev machine : Machine
machine = record {
  State = Store;
  data_of = λ side s. s.0;
  set_data = λ side d s. (d, s.1);
  alloc = first_alloc;
  dealloc = λ p n s. (true, (s.0, erase (p, n) s.1));
  func = λ p n q k s. (true, s);
}

abbrev held : Store → List Buffer
held s = s.1

machine-IsSound : IsSound machine held
machine-IsSound = record {
  alloc_held = λ n p s h. ground arith;
  alloc_failed = λ n s h. ground arith;
  alloc_fits = λ n p s h. ground arith;
  alloc_grows = λ n s side. ground arith;
  dealloc_held = λ p n s h. refl;
  func_held = λ p n q k s. refl;
  func_grows = λ p n q k s side. omega arith;
  set_data_held = λ side d s. refl;
  set_data_length = λ side other d s h. h;
}

abbrev at_rest : Store
at_rest = (codes "abcdefgh", [])

abbrev answer : MemBuf
answer = record { mem = caller; buf = 4; buf_len = 2 }

call_releases_example :
    (r : McallError × Store) × (call machine (codes "hi") answer at_rest ≡ some r)
    × (held r.1 ≡ held at_rest)
call_releases_example =
    call_releases machine held machine-IsSound (codes "hi") answer at_rest (omega arith)

abbrev result_buf : MemBuf
result_buf = record { mem = callee; buf = 0; buf_len = 2 }

copied : copy_from machine answer result_buf at_rest ≡ some (codes "abcdabgh", [])
unfolding copy_from copy_to_slice copy_from_slice read_range write_range
copied = refl

copy_from-delivers_example : read_range (codes "abcdabgh") 4 2 ≡ read_range (codes "abcdefgh") 0 2
copy_from-delivers_example =
    copy_from-delivers machine (λ side d s. refl) answer result_buf at_rest (codes "abcdabgh", [])
      refl copied

abbrev a_library : BlocklessModule
a_library = record { module_type = library; name = codes "lib"; file = codes "lib.wasm"; md5 = [] }

abbrev an_entry : BlocklessModule
an_entry = record { module_type = entry_module_type; name = []; file = codes "app.wasm"; md5 = [] }

-- Every file loads as its name, and an instance is noted by its name.
abbrev load : Bytes → Option Bytes
load f = some f

abbrev note : Bytes → Bytes → List Bytes → Option (List Bytes)
note name loaded s = some (name ∷ s)

abbrev wrap : HostFunc → List Bytes → Option (List Bytes)
wrap mcall s = some (codes "mcall" ∷ s)
wrap register s = some (codes "register" ∷ s)

link_modules-order_example :
    link_modules load note wrap (some (some (an_entry ∷ a_library ∷ []))) []
    ≡ and_then (wrap mcall []) λ s1. and_then (wrap register s1) λ s2.
      and_then (instantiate_all load note (libraries (an_entry ∷ a_library ∷ [])) s2) λ s'.
        and_then
          (load_last load note (entries (an_entry ∷ a_library ∷ [])) none)
          λ found. and_then found λ entry. some (entry, s')
link_modules-order_example = link_modules-order load note wrap (an_entry ∷ a_library ∷ []) []

tcp_IsSchema : IsSchema (codes "tcp")
unfolding is_addr_token
tcp_IsSchema = ((refl, (refl, (refl, tt))), λ e. cc)

-- A driver is its name here.
abbrev own_name : Bytes → Bytes
own_name d = d

abbrev any_text : Bytes → Bool
any_text s = true

find_driver-insert_driver_example :
    find_driver own_name to_ascii_lowercase any_text
      (url (codes "tcp") [])
      (insert_driver own_name to_ascii_lowercase any_text (codes "TCP") [])
    ≡ (if bytes_beq (to_ascii_lowercase (codes "TCP")) (to_ascii_lowercase (codes "tcp"))
        then some (codes "TCP")
        else find_driver own_name to_ascii_lowercase any_text (url (codes "tcp") []) [])
find_driver-insert_driver_example =
    find_driver-insert_driver own_name to_ascii_lowercase any_text (codes "TCP") (codes "tcp") [] []
      tcp_IsSchema tt refl

-- A file is its number here; two are polled, and only the first is ready.
abbrev no_events : Revents
no_events = record { nval = false; error = false; hang_up = false }

abbrev can_poll : ℕ → Bool
can_poll f = true

abbrev eight : ℕ → Result ℕ
eight f = ok 8

abbrev two_reads : Poll ℕ
two_reads = (read 5 none, 70) ∷ (read 6 none, 71) ∷ (monotonic_clock 900, 72) ∷ []

both_pollable : all_pollable can_poll eight two_reads ≡ true
unfolding all_pollable
both_pollable = refl

timeout_fits : poll_timeout can_poll eight 100 two_reads ≡ ok 1
unfolding poll_timeout earliest_clock_deadline
timeout_fits = refl

two_descriptors : length (no_events ∷ no_events ∷ []) ≡ descriptors two_reads
unfolding descriptors
two_descriptors = refl

poll_oneoff-reported_example :
    (q : Poll ℕ) × (poll_oneoff can_poll eight 500
        ((100, ready 1 (no_events ∷ no_events ∷ [])) ∷ [])
        two_reads
      ≡ returns (ok q))
    × ((now : ℕ) → user_data (results now q) ≡ reported now two_reads)
poll_oneoff-reported_example =
    poll_oneoff-reported can_poll eight (λ f. (8, refl)) 500 100 0 1 (no_events ∷ no_events ∷ []) []
      (read 5 none, 70) ((read 6 none, 71) ∷ (monotonic_clock 900, 72) ∷ []) both_pollable
      timeout_fits two_descriptors
