-- ===== src/Drivers/Cgi/Extensions.antt =====
-- crates/blockless-drivers/src/cgi_driver/db.rs and process.rs: the table of the extensions and the
-- listing of a directory against it. The table is the rows that its statements leave, with the
-- unique alias; other errors of the database are left out. What the
-- directory holds, the checksum of a file and its answer to `--ext_verify` are data of an entry.
pub mod Present
use bls_runtime.Prelude.{
  ℕ, ◌+◌, Bool, true, false, not, ◌&&◌, ◌||◌, Option, none, some, List, [], ◌∷◌, ◌++◌, Bytes, codes,
  leb, ◌==◌, if◌then◌else◌, map,
}
use bls_runtime.Prelude.Assoc.{Assoc, lookup, insert}
use bls_runtime.Prelude.Text.{bytes_eq, bytes_beq}
use bls_runtime.Drivers.Cgi.{Result, ok, err, CgiErrorKind, invalid_extension, runtime_error}

pub data ExtensionMetaStatus : Type 0 where
  normal update invalid : ExtensionMetaStatus

abbrev pub is_invalid : ExtensionMetaStatus → Bool
is_invalid invalid = true
is_invalid _ = false

abbrev pub is_normal : ExtensionMetaStatus → Bool
is_normal normal = true
is_normal _ = false

pub record ExtensionMeta : Type 0 where
  pub id : ℕ
  pub md5 : Bytes
  pub description : Bytes
  pub alias : Bytes
  pub file_name : Bytes
  pub status : ExtensionMetaStatus

abbrev pub Rows : Type 0
Rows = List ExtensionMeta

unfoldable pub list_extensions : Rows → Rows
list_extensions [] = []
list_extensions (r ∷ rows) =
    let rest = list_extensions rows in if is_normal r.status then r ∷ rest else rest

unfoldable pub get_extension_by_alias : Bytes → Rows → Option ExtensionMeta
get_extension_by_alias alias [] = none
get_extension_by_alias alias (r ∷ rows) =
    if is_normal r.status && bytes_beq r.alias alias
    then some r
    else get_extension_by_alias alias rows

unfoldable pub delete_extension_meta : ExtensionMeta → Rows → Rows
delete_extension_meta meta [] = []
delete_extension_meta meta (r ∷ rows) =
    let rest = delete_extension_meta meta rows in
    if r.id == meta.id && bytes_beq r.file_name meta.file_name then rest else r ∷ rest

-- An alias stands once, and a new row has the key behind the largest.
abbrev has_alias : Bytes → Rows → Bool
has_alias alias [] = false
has_alias alias (r ∷ rows) = bytes_beq r.alias alias || has_alias alias rows

abbrev next_id : Rows → ℕ
next_id [] = 1
next_id (r ∷ rows) = let rest = next_id rows in if leb rest r.id then r.id + 1 else rest

-- The rows one after the other, those that are done first: an alias that another row has fails, and
-- then no row is changed.
unfoldable pub update_rows : ExtensionMeta → Rows → Rows → Option Rows
update_rows meta before [] = some before
update_rows meta before (r ∷ rows) =
    let changed = record r { alias = meta.alias; md5 = meta.md5; description = meta.description } in
    let skipped = update_rows meta (before ++ (r ∷ [])) rows in
    let updated = update_rows meta (before ++ (changed ∷ [])) rows in
    if not (bytes_beq r.file_name meta.file_name)
    then skipped
    else if has_alias meta.alias (before ++ rows)
    then none
    else updated

unfoldable pub update_extension_meta : ExtensionMeta → Rows → Option Rows
unfolding update_rows
update_extension_meta meta rows = update_rows meta [] rows

unfoldable pub insert_extension_meta : ExtensionMeta → Rows → Option Rows
insert_extension_meta meta rows =
    if has_alias meta.alias rows
    then none
    else some (rows ++ (record meta { id = next_id rows } ∷ []))

-- Whether all were saved, and the rows that the statements before an error left.
unfoldable pub save_extensions : List ExtensionMeta → Rows → Bool × Rows
unfolding insert_extension_meta update_extension_meta delete_extension_meta
save_extensions [] rows = (true, rows)
save_extensions (meta ∷ exts) rows = elim meta.status [
  | normal ↦ elim (insert_extension_meta meta rows) [
    | none ↦ (false, rows)
    | some rows' ↦ save_extensions exts rows'
  ]
  | update ↦ elim (update_extension_meta meta rows) [
    | none ↦ (false, rows)
    | some rows' ↦ save_extensions exts rows'
  ]
  | invalid ↦ save_extensions exts (delete_extension_meta meta rows)
]

-- An entry of the directory; `none` is an error of the system, and the answer to `--ext_verify` is
-- that of a file that is no extension, or its meta data.
pub record Entry : Type 0 where
  pub file_name : Bytes
  pub is_file : Bool
  pub is_executable : Bool
  pub md5 : Option Bytes
  pub ext_verify : Option (Option ExtensionMeta)

-- Whether `list_cgi_directory` looks at an entry.
unfoldable pub is_candidate : Entry → Bool
is_candidate e = not (bytes_beq e.file_name (codes ".extsdb")) && e.is_file && e.is_executable

-- One candidate with its checksum: a known one is marked, another is asked.
unfoldable pub list_entry :
    Entry
    → Bytes
    → List ExtensionMeta
    → Assoc Bytes ExtensionMeta
    → Option (List ExtensionMeta × Assoc Bytes ExtensionMeta)
list_entry e md5 rs meta_db = elim (lookup e.file_name meta_db) [
  | some meta ↦ some (rs, insert e.file_name (record meta { md5 = md5; status = update }) meta_db)
  | none ↦ elim e.ext_verify [
    | none ↦ none
    | some none ↦ some (rs, meta_db)
    | some (some meta) ↦ some (rs ++ (record meta { file_name = e.file_name } ∷ []), meta_db)
  ]
]

unfoldable pub list_cgi_directory :
    List Entry
    → List ExtensionMeta
    → Assoc Bytes ExtensionMeta
    → Option (List ExtensionMeta × Assoc Bytes ExtensionMeta)
unfolding is_candidate list_entry
list_cgi_directory [] rs meta_db = some (rs, meta_db)
list_cgi_directory (e ∷ es) rs meta_db = elim (is_candidate e) [
  | false ↦ list_cgi_directory es rs meta_db
  | true ↦ elim e.md5 [
    | none ↦ none
    | some md5 ↦ elim (list_entry e md5 rs meta_db) [
      | none ↦ none
      | some r ↦ list_cgi_directory es r.0 r.1
    ]
  ]
]

-- The rows by file name, all marked as invalid.
unfoldable pub by_file_name : Rows → Assoc Bytes ExtensionMeta → Assoc Bytes ExtensionMeta
by_file_name [] m = m
by_file_name (r ∷ rows) m = by_file_name rows (insert r.file_name (record r { status = invalid }) m)

abbrev pub values : Assoc Bytes ExtensionMeta → List ExtensionMeta
values [] = []
values (e ∷ m) = e.1 ∷ values m

unfoldable pub valid_ones : List ExtensionMeta → List ExtensionMeta
valid_ones [] = []
valid_ones (m ∷ ms) = let rest = valid_ones ms in if is_invalid m.status then rest else m ∷ rest

-- The listing, and the rows that it leaves.
unfoldable pub cgi_directory_list_extensions :
    List Entry → Rows → Result (List ExtensionMeta) × Rows
unfolding list_extensions by_file_name list_cgi_directory save_extensions valid_ones
cgi_directory_list_extensions entries rows =
    elim (list_cgi_directory entries [] (by_file_name (list_extensions rows) [])) [
      | none ↦ (err invalid_extension, rows)
      | some r ↦
          let metas = r.0 ++ values r.1 in
          let (saved, rows') = save_extensions metas rows in
          (if saved then ok (valid_ones metas) else err invalid_extension, rows')
    ]
