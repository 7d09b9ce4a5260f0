-- ===== src/Drivers/Cgi/Extensions/Present.antt =====
-- Which extensions a listing gives.
use mathlib.Core.Option.{some-injective}
use mathlib.Core.Path.{subst}
use bls_runtime.Prelude.{
  ◌≡◌, ◌≢◌, refl, ap, ◌∙◌, true, false, codes, arith, some, List, [], ◌∷◌, ◌++◌, Bytes, All,
  All-append, Bool-cases, Option-cases, if_intro, ◌⊎◌, inl, inr,
}
use bls_runtime.Prelude.Assoc.{Assoc, lookup, insert}
use bls_runtime.Prelude.Text.{bytes_eq, bytes_beq, bytes_beq_iff}
use bls_runtime.Drivers.Cgi.{Result, ok, ok-injective}
use bls_runtime.Drivers.Cgi.Extensions.{
  update, is_invalid, ExtensionMeta, Rows, list_extensions, Entry, is_candidate, list_entry,
  list_cgi_directory, by_file_name, values, valid_ones, save_extensions,
  cgi_directory_list_extensions,
}

-- An extension is of an entry: the entry is an executable file other than the table, has the name,
-- and its checksum is the extension's or the extension is what the file says of itself.
abbrev pub IsOf : Entry → ExtensionMeta → Type 0
IsOf e m =
    (e.file_name ≢ codes ".extsdb")
    × (e.is_file ≡ true)
    × (e.is_executable ≡ true)
    × (m.file_name ≡ e.file_name)
    × ((e.md5 ≡ some m.md5)
        ⊎ ((x : ExtensionMeta) × (e.ext_verify ≡ some (some x))
            × (m ≡ record x { file_name = e.file_name })))

abbrev pub Among : Entry → List Entry → Type 0
Among e [] = ⊥
Among e (x ∷ xs) = (e ≡ x) ⊎ Among e xs

abbrev pub IsPresent : List Entry → ExtensionMeta → Type 0
IsPresent entries m = (e : Entry) × Among e entries × IsOf e m

-- What the map holds: each under its name, and marked as invalid or of an entry.
abbrev IsKept : List Entry → Bytes × ExtensionMeta → Type 0
IsKept entries (k, m) = (m.file_name ≡ k) × ((is_invalid m.status ≡ true) ⊎ IsPresent entries m)

module _ (P : Bytes × ExtensionMeta → Type 0) where
  insert-All :
      (k : Bytes) (v : ExtensionMeta) (m : Assoc Bytes ExtensionMeta)
      → P (k, v)
      → All P m
      → All P (insert k v m)
  unfolding insert
  insert-All k v [] new old = (new, tt)
  insert-All k v (e ∷ m) new old =
      if_intro (All P) (bytes_beq e.0 k) (λ _. (new, old.1))
        (λ _. (old.0, insert-All k v m new old.1))

  lookup-All :
      (k : Bytes) (v : ExtensionMeta) (m : Assoc Bytes ExtensionMeta)
      → All P m
      → lookup k m ≡ some v
      → P (k, v)
  unfolding lookup
  lookup-All k v [] all h = absurd (cc)
  lookup-All k v (e ∷ m) all h = elim (Bool-cases (bytes_beq e.0 k)) [
    | inl same ↦
        let name : e.0 ≡ k = (bytes_beq_iff e.0 k).0 same in
        let value : e.1 ≡ v = some-injective _ _ (rw (same, lookup) at h) in
        subst (λ x. P (k, x)) value (subst (λ x. P (x, e.1)) name all.0)
    | inr other ↦ lookup-All k v m all.1 (rw (other, lookup) at h)
  ]

by_file_name-IsKept :
    (entries : List Entry) (rows : Rows) (m : Assoc Bytes ExtensionMeta)
    → All (IsKept entries) m
    → All (IsKept entries) (by_file_name rows m)
unfolding by_file_name
by_file_name-IsKept entries [] m all = all
by_file_name-IsKept entries (r ∷ rows) m all =
    by_file_name-IsKept entries rows _
      (insert-All (IsKept entries) r.file_name _ m (refl, inl refl) all)

is_candidate-file :
    (e : Entry)
    → is_candidate e ≡ true
    → (e.file_name ≢ codes ".extsdb") × (e.is_file ≡ true) × (e.is_executable ≡ true)
unfolding is_candidate
is_candidate-file e candidate =
    let other : bytes_beq e.file_name (codes ".extsdb") ≡ false = ground (arith, candidate) in
    (
      λ same. cc ((bytes_beq_iff e.file_name (codes ".extsdb")).1 same, other),
      ground (arith, candidate),
      ground (arith, candidate),
    )

module _ (entries : List Entry) where
  AllGood : List ExtensionMeta × Assoc Bytes ExtensionMeta → Type 0
  AllGood r = All (IsPresent entries) r.0 × All (IsKept entries) r.1

  list_entry-AllGood :
      (e : Entry) (md5 : Bytes) (rs : List ExtensionMeta) (m : Assoc Bytes ExtensionMeta)
      (r : List ExtensionMeta × Assoc Bytes ExtensionMeta)
      → Among e entries
      → is_candidate e ≡ true
      → e.md5 ≡ some md5
      → AllGood (rs, m)
      → list_entry e md5 rs m ≡ some r
      → AllGood r
  unfolding list_entry AllGood
  list_entry-AllGood e md5 rs m r member candidate sum (good, kept) h =
      let plain = is_candidate-file e candidate in
      elim (Option-cases (lookup e.file_name m)) [
        | inr (meta, known) ↦
            let (name, _) = lookup-All (IsKept entries) e.file_name meta m kept known in
            let marked : ExtensionMeta = record meta { md5 = md5; status = update } in
            let present : IsPresent entries marked =
              (e, member, (plain.0, plain.1, plain.2, name, inl sum)) in
            subst AllGood (some-injective _ _ (rw (known, list_entry) at h))
              (good, insert-All (IsKept entries) e.file_name marked m (name, inr present) kept)
        | inl new ↦ elim (Option-cases e.ext_verify) [
          | inl failed ↦ absurd (cc (rw (new, failed, list_entry) at h))
          | inr (answer, asked) ↦ elim (Option-cases answer) [
            | inl no_cgi ↦
                subst AllGood
                  (some-injective _ _ (rw (new, asked ∙ ap some no_cgi, list_entry) at h))
                  (good, kept)
            | inr (x, is_cgi) ↦
                let said = asked ∙ ap some is_cgi in
                let present : IsPresent entries (record x { file_name = e.file_name }) =
                  (e, member, (plain.0, plain.1, plain.2, refl, inr (x, said, refl))) in
                subst AllGood (some-injective _ _ (rw (new, said, list_entry) at h))
                  (All-append (IsPresent entries) rs _ good (present, tt), kept)
          ]
        ]
      ]

  list_cgi_directory-AllGood :
      (es : List Entry) (rs : List ExtensionMeta) (m : Assoc Bytes ExtensionMeta)
      (r : List ExtensionMeta × Assoc Bytes ExtensionMeta)
      → ((e : Entry) → Among e es → Among e entries)
      → AllGood (rs, m)
      → list_cgi_directory es rs m ≡ some r
      → AllGood r
  unfolding list_cgi_directory AllGood
  list_cgi_directory-AllGood [] rs m r sub good h = subst AllGood (some-injective _ _ h) good
  list_cgi_directory-AllGood (e ∷ es) rs m r sub good h =
      let later : (x : Entry) → Among x es → Among x entries = λ x a. sub x (inr a) in
      elim (Bool-cases (is_candidate e)) [
        | inr skipped ↦
            list_cgi_directory-AllGood es rs m r later good (rw (skipped, list_cgi_directory) at h)
        | inl candidate ↦ elim (Option-cases e.md5) [
          | inl unread ↦ absurd (cc (rw (candidate, unread, list_cgi_directory) at h))
          | inr (md5, sum) ↦ elim (Option-cases (list_entry e md5 rs m)) [
            | inl failed ↦ absurd (cc (rw (candidate, sum, failed, list_cgi_directory) at h))
            | inr (r', listed) ↦
                list_cgi_directory-AllGood es r'.0 r'.1 r later
                  (list_entry-AllGood e md5 rs m r' (sub e (inl refl)) candidate sum good listed)
                  (rw (candidate, sum, listed, list_cgi_directory) at h)
          ]
        ]
      ]

  MayList : ExtensionMeta → Type 0
  MayList m = (is_invalid m.status ≡ true) ⊎ IsPresent entries m

  present-MayList : (ms : List ExtensionMeta) → All (IsPresent entries) ms → All MayList ms
  unfolding MayList
  present-MayList [] h = tt
  present-MayList (m ∷ ms) h = (inr h.0, present-MayList ms h.1)

  values-MayList : (m : Assoc Bytes ExtensionMeta) → All (IsKept entries) m → All MayList (values m)
  unfolding MayList
  values-MayList [] h = tt
  values-MayList (e ∷ m) h = (h.0.1, values-MayList m h.1)

  valid_ones-IsPresent :
      (ms : List ExtensionMeta) → All MayList ms → All (IsPresent entries) (valid_ones ms)
  unfolding valid_ones MayList
  valid_ones-IsPresent [] h = tt
  valid_ones-IsPresent (m ∷ ms) h =
      if_intro (All (IsPresent entries)) (is_invalid m.status) (λ _. valid_ones-IsPresent ms h.1)
        (λ valid. elim h.0 [
          | inl gone ↦ absurd (cc (gone, valid))
          | inr present ↦ (present, valid_ones-IsPresent ms h.1)
        ])

  -- Every extension that a listing gives is an executable file of the directory, under its name,
  -- and the checksum is that of the file or the extension is what the file says of itself. So an
  -- extension whose file is gone is not listed, whatever the table holds.
  pub listed-IsPresent :
      (rows rows' : Rows) (metas : List ExtensionMeta)
      → cgi_directory_list_extensions entries rows ≡ (ok metas, rows')
      → All (IsPresent entries) metas
  unfolding cgi_directory_list_extensions AllGood
  listed-IsPresent rows rows' metas h =
      let known = by_file_name (list_extensions rows) [] in
      elim (Option-cases (list_cgi_directory entries [] known)) [
        | inl failed ↦ absurd (
            cc (
              ap (λ (x : Result (List ExtensionMeta) × Rows). x.0)
                (rw (failed, cgi_directory_list_extensions) at h)))
        | inr (r, listed) ↦
            let (good, kept) =
              list_cgi_directory-AllGood entries [] known r (λ e a. a)
                (tt, by_file_name-IsKept entries (list_extensions rows) [] tt) listed in
            let may =
              All-append MayList r.0 (values r.1) (present-MayList r.0 good)
                (values-MayList r.1 kept) in
            let left =
              ap (λ (x : Result (List ExtensionMeta) × Rows). x.0)
                (rw (listed, cgi_directory_list_extensions) at h) in
            elim (Bool-cases (save_extensions (r.0 ++ values r.1) rows).0) [
              | inl saved ↦
                  subst (All (IsPresent entries)) (ok-injective _ _ (rw saved at left))
                    (valid_ones-IsPresent (r.0 ++ values r.1) may)
              | inr unsaved ↦ absurd (cc (rw unsaved at left))
            ]
      ]
