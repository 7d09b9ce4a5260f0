-- ===== src/Drivers/Llm/Download/Resumed.antt =====
-- What a download leaves, however often it was interrupted before.
use mathlib.Core.Option.{some-injective}
use mathlib.Core.Path.{subst}
use bls_runtime.Prelude.{
  ℕ, ◌<◌, ◌≡◌, ◌≢◌, refl, ap, sym, ◌∙◌, Bool, true, false, ◌&&◌, Option, none, some, List, [], ◌∷◌,
  ◌++◌, Bytes, append_assoc, append-nil, ltb, leb, ◌==◌, if◌then◌else◌, if_intro, length, arith,
  inl, inr, ◌⊎◌, length-append,
}
use bls_runtime.Prelude.Result.{ok, err}
use bls_runtime.Drivers.Http.Streams.{Item, chunk, failure}
use bls_runtime.Drivers.Http.Streams.Rounds.{bytes_of}
use bls_runtime.Drivers.Llm.Download.{
  ProviderError, Head, Response, Server, Disk, Files, Outcome, total_size, size_of, bytes_in,
  receive, set_executable, finalize, append_chunks, fetch, resume, from_head, download_model,
}

-- Whether a body breaks off.
abbrev pub fails : List Item → Bool
fails [] = false
fails (failure ∷ items) = true
fails (chunk b ∷ items) = fails items

receive_lem :
    (items : List Item) (file : Bytes)
    → ((receive items file).1 ≡ file ++ bytes_of items)
      × (fails items ≡ (if (receive items file).0 then false else true))
unfolding receive
receive_lem [] file = (sym (append-nil file), refl)
receive_lem (failure ∷ items) file = (sym (append-nil file), refl)
receive_lem (chunk b ∷ items) file =
    let (bytes, ended) = receive_lem items (file ++ b) in
    (bytes ∙ append_assoc file b (bytes_of items), ended)

-- A beginning of the file.
abbrev pub IsStart : Bytes → Bytes → Type 0
IsStart b file = (rest : Bytes) × (file ≡ b ++ rest)

-- The server has this file: it tells its size, and its bodies are the bytes from the offset on,
-- whole or broken off.
abbrev pub Sends : Bytes → ℕ → Option Response → Type 0
Sends file n none = Unit
Sends file n (some r) =
    ((before : Bytes)
      → length before ≡ n
      → IsStart before file
      → IsStart (before ++ bytes_of r.chunks) file)
    × ((before : Bytes)
        → length before ≡ n
        → IsStart before file
        → fails r.chunks ≡ false
        → before ++ bytes_of r.chunks ≡ file)

abbrev pub Tells : Bytes → Option Head → Type 0
Tells file none = Unit
Tells file (some h) = total_size h ≡ length file

pub record Serves (file : Bytes) (server : Server) : Type 0 where
  pub tells : Tells file server.head
  pub whole : Sends file 0 (server.get none)
  pub ranges : (n : ℕ) → Sends file n (server.get (some n))

-- What holds of an outcome: the partial file is a beginning of the file, an answer without error
-- means that the model is the file and can be run, and the model is the file or as it was.
abbrev pub IsResumed : Bytes → Option Bytes → Outcome → Type 0
IsResumed file old (r, f) =
    IsStart (bytes_in f.part) file
    × (r ≡ ok tt → (f.model ≡ some file) × (f.executable ≡ true))
    × ((f.model ≡ some file) ⊎ (f.model ≡ old))

module _ (file : Bytes) (old : Option Bytes) where
  failed :
      (e : ProviderError) (f : Files)
      → IsStart (bytes_in f.part) file
      → f.model ≡ old
      → IsResumed file old (err e, f)
  failed e f start kept = (start, (λ h. absurd (cc)), inr kept)

  -- A beginning that is as long as the file is the file.
  whole_start : (b : Bytes) → IsStart b file → length b ≡ length file → b ≡ file
  whole_start b (rest, e) size =
      let nothing = empty rest (omega (arith, size, ap length e, length-append b rest)) in
      sym (e ∙ ap (λ r. b ++ r) nothing ∙ append-nil b)
    where
      empty : (r : Bytes) → length r ≡ 0 → r ≡ []
      empty [] h = refl
      empty (c ∷ r) h = absurd (omega (arith, h))

module _ (file : Bytes) (old : Option Bytes) (disk : Disk) where
  set_executable-IsResumed :
      (f : Files) → f.part ≡ none → f.model ≡ some file → IsResumed file old (set_executable disk f)
  unfolding set_executable
  set_executable-IsResumed f gone there =
      let start : IsStart (bytes_in f.part) file = (file, rw gone refl) in
      if_intro (IsResumed file old) disk.sets_mode (λ h. (start, (λ e. (there, refl)), inl there))
        (λ h. (start, (λ e. absurd (cc)), inl there))

  finalize-IsResumed :
      (f : Files) → f.part ≡ some file → f.model ≡ old → IsResumed file old (finalize disk f)
  unfolding finalize
  finalize-IsResumed f complete kept =
      let start : IsStart (bytes_in f.part) file = ([], rw complete (sym (append-nil file))) in
      if_intro (IsResumed file old) disk.renames (λ h. set_executable-IsResumed _ refl complete)
        (λ h. failed file old _ f start kept)

  append_chunks-IsResumed :
      (items : List Item) (f : Files)
      → IsStart (bytes_in f.part ++ bytes_of items) file
      → (fails items ≡ false → bytes_in f.part ++ bytes_of items ≡ file)
      → f.model ≡ old
      → IsResumed file old (append_chunks disk items f)
  unfolding append_chunks
  append_chunks-IsResumed items f start complete kept =
      let (bytes, ended) = receive_lem items (bytes_in f.part) in
      let (done, got) = receive items (bytes_in f.part) in
      let f' : Files = record f { part = some got } in
      let start' : IsStart got file = (start.0, start.1 ∙ ap (λ b. b ++ start.0) (sym bytes)) in
      if_intro (IsResumed file old) done
        (λ h.
          let whole : got ≡ file = bytes ∙ complete (ended ∙ rw h refl) in
          if_intro (IsResumed file old) disk.syncs (λ s. finalize-IsResumed f' (ap some whole) kept)
            (λ s. failed file old _ f' start' kept))
        (λ h. failed file old _ f' start' kept)

  fetch-IsResumed :
      (answer : Option Response) (f : Files)
      → IsStart (bytes_in f.part) file
      → Sends file (length (bytes_in f.part)) answer
      → f.model ≡ old
      → IsResumed file old (fetch disk answer f)
  unfolding fetch
  fetch-IsResumed none f start sends kept = failed file old _ f start kept
  fetch-IsResumed (some r) f start (starts, ends) kept =
      if_intro (IsResumed file old) r.is_success
        (λ h.
          append_chunks-IsResumed r.chunks f (starts (bytes_in f.part) refl start)
            (ends (bytes_in f.part) refl start) kept)
        (λ h. failed file old _ f start kept)

  module _ (server : Server) (serves : Serves file server) where
    -- Where a partial file has no bytes, a new one is made in its place.
    resume-IsResumed :
        (f : Files)
        → IsStart (bytes_in f.part) file
        → f.model ≡ old
        → IsResumed file old (resume disk server (size_of f.part) f)
    unfolding resume
    resume-IsResumed f start kept =
        if_intro (IsResumed file old) (ltb 0 (size_of f.part))
          (λ h.
            if_intro (IsResumed file old) disk.opens
              (λ o.
                fetch-IsResumed _ f start
                  (subst (λ n. Sends file n (server.get (some (size_of f.part)))) (size f.part)
                    (serves.ranges (size_of f.part)))
                  kept)
              (λ o. failed file old _ f start kept))
          (λ h.
            if_intro (IsResumed file old) disk.creates
              (λ c. fetch-IsResumed _ (record f { part = some [] }) (file, refl) serves.whole kept)
              (λ c. failed file old _ f start kept))
      where
        size : (p : Option Bytes) → size_of p ≡ length (bytes_in p)
        size none = refl
        size (some b) = refl

    from_head-IsResumed :
        (head : Option Head) (f : Files)
        → Tells file head
        → IsStart (bytes_in f.part) file
        → f.model ≡ old
        → IsResumed file old (from_head disk server head f)
    unfolding from_head
    from_head-IsResumed none f tells start kept = failed file old _ f start kept
    from_head-IsResumed (some h) f tells start kept =
        if_intro (IsResumed file old) (leb 400 h.status) (λ e. failed file old _ f start kept)
          (λ e.
            if_intro (IsResumed file old) (ltb 0 (total_size h) && (size_of f.part == total_size h))
              (λ complete.
                finalize-IsResumed f
                  (complete_part f.part start (ground (arith, complete, tells))
                    (ground (arith, complete, tells)))
                  kept)
              (λ more. resume-IsResumed f start kept))
      where
        complete_part :
            (p : Option Bytes)
            → IsStart (bytes_in p) file
            → 0 < length file
            → size_of p ≡ length file
            → p ≡ some file
        complete_part none start some_bytes size = absurd (omega (arith, some_bytes, size))
        complete_part (some b) start some_bytes size = ap some (whole_start file old b start size)

-- From a server that has a file, and sends its bytes from the offset on that it is asked for: a
-- download, whatever calls of the disk fail and wherever the body breaks off, leaves a partial file
-- that is a beginning of the file, so that the next download can go on from there; where it
-- answers without an error, the model is exactly the file and can be run; and the model is never
-- anything but the file or what it was before.
pub download_model-IsResumed :
    (file : Bytes) (disk : Disk) (server : Server) (f : Files)
    → Serves file server
    → IsStart (bytes_in f.part) file
    → IsResumed file f.model (download_model disk server f)
unfolding download_model
download_model-IsResumed file disk server f serves start =
    if_intro (IsResumed file f.model) (disk.has_parent && disk.create_dir_all)
      (λ h.
        from_head-IsResumed file f.model disk server serves server.head f serves.tells start refl)
      (λ h. failed file f.model _ f start refl)

-- A disk on which every call succeeds.
abbrev pub working : Disk
working = record {
  has_parent = true;
  create_dir_all = true;
  opens = true;
  creates = true;
  syncs = true;
  renames = true;
  sets_mode = true;
}

-- A server may answer a request for a range with the whole file. The code does not look at the
-- status: it puts the whole file behind a partial file that has bytes already, and reports that the
-- download succeeded, with a model that is not the file.
pub download_model-doubles :
    (file part : Bytes) (server : Server) (h : Head) (r : Response) (f : Files)
    → f.part ≡ some part
    → 0 < length part
    → length part < length file
    → server.head ≡ some h
    → h.status < 400
    → total_size h ≡ length file
    → server.get (some (length part)) ≡ some r
    → r.is_success ≡ true
    → fails r.chunks ≡ false
    → bytes_of r.chunks ≡ file
    → (f' : Files) × (download_model working server f ≡ (ok tt, f'))
      × (f'.model ≡ some (part ++ file))
      × (f'.model ≢ some file)
unfolding download_model from_head resume fetch append_chunks finalize set_executable
download_model-doubles file part server h r f kept some_bytes less told status size sent good whole
      bytes =
    let (got, ended) = receive_lem r.chunks part in
    let done : (receive r.chunks part).0 ≡ true = ended_whole _ (sym ended ∙ whole) in
    let doubled : (receive r.chunks part).1 ≡ part ++ file = got ∙ ap (◌++◌ part) bytes in
    let low : leb 400 h.status ≡ false = ground (arith, status) in
    let more : (ltb 0 (total_size h) && (length part == total_size h)) ≡ false =
      ground (arith, size, less) in
    let resumes : ltb 0 (length part) ≡ true = ground (arith, some_bytes) in
    let f' : Files = record { part = none; model = some (part ++ file); executable = true } in
    (
      f',
      rw (told, kept, low, more, resumes, sent, good, done, doubled, download_model) refl,
      refl,
      λ same. longer (some-injective _ _ same),
    )
  where
    ended_whole : (b : Bool) → (if b then false else true) ≡ false → b ≡ true
    ended_whole true h = refl
    ended_whole false h = cc

    longer : part ++ file ≡ file → ⊥
    longer e = omega (arith, ap length e, length-append part file, some_bytes)
