-- ===== src/Permissions/Parser.antt =====
-- crates/wasi-common/src/blockless/permission_parser.rs and error.rs: permission arguments become
-- descriptors. Paths are the standard library's, and the descriptors of the other kinds are those
-- of bls_permissions: both are parameters.
use bls_runtime.Prelude.{
  ◌≡◌, refl, Bool, true, Option, none, some, [], ◌∷◌, Bytes, if◌then◌else◌, Bool-cases,
  Option-cases, inl, inr, sym, ap, ◌∙◌,
}

pub data DescriptorParserError : Type 0 where
  empty_path cwd_resolve empty_env_descriptor empty_sys_descriptor : DescriptorParserError
  empty_run_query path_resolve library_error : DescriptorParserError

pub data Parsed (A : Type 0) : Type 0 where
  ok : A → Parsed A
  err : DescriptorParserError → Parsed A

infixl 5 ◌>>=◌
abbrev pub ◌>>=◌ : {A B : Type 0} → Parsed A → (A → Parsed B) → Parsed B
ok a >>= f = f a
err e >>= f = err e

-- `Path`, with what `resolve_from_cwd` asks of it. The laws are those of Unix paths: joining to an
-- absolute path and normalising one give an absolute path.
pub record Paths : Type 1 where
  pub FilePath : Type 0
  pub from : Bytes → FilePath
  pub is_absolute : FilePath → Bool
  pub join : FilePath → FilePath → FilePath
  pub normalize_path : FilePath → FilePath
  pub is_absolute-join : (a b : FilePath) → is_absolute a ≡ true → is_absolute (join a b) ≡ true
  pub is_absolute-normalize_path :
      (a : FilePath) → is_absolute a ≡ true → is_absolute (normalize_path a) ≡ true

-- The parsers of bls_permissions that the trait's methods call.
pub record Descriptors (FilePath : Type 0) : Type 1 where
  pub Env : Type 0
  pub Sys : Type 0
  pub Run : Type 0
  pub env_new : Bytes → Env
  pub sys_parse : Bytes → Parsed Sys
  pub allow_run_parse : Bytes → FilePath → Parsed Run
  pub run_query_parse : Bytes → Parsed Run

module _ (paths : Paths) (current_dir : Option Bytes) where
  open paths use {
    FilePath, from, is_absolute, join, normalize_path, is_absolute-join, is_absolute-normalize_path,
  }

  unfoldable pub resolve_cwd : Parsed FilePath
  resolve_cwd = elim current_dir [ none ↦ err cwd_resolve | some d ↦ ok (from d) ]

  unfoldable pub resolve_from_cwd : Bytes → Parsed FilePath
  unfolding resolve_cwd
  resolve_from_cwd [] = err empty_path
  resolve_from_cwd (c ∷ s) =
      let path = from (c ∷ s) in
      if is_absolute path
      then ok (normalize_path path)
      else (do cwd ← resolve_cwd; ok (normalize_path (join cwd path)))

  -- `parse_read_descriptor`, `parse_write_descriptor` and `parse_ffi_descriptor`
  unfoldable pub parse_path_descriptor : Bytes → Parsed FilePath
  unfolding resolve_from_cwd
  parse_path_descriptor text = resolve_from_cwd text

  -- The resolved path beside the text that was asked for.
  unfoldable pub parse_path_query : Bytes → Parsed (FilePath × Bytes)
  unfolding resolve_from_cwd
  parse_path_query path = do resolved ← resolve_from_cwd path; ok (resolved, path)

  module _ (ds : Descriptors FilePath) where
    open ds use {Env, Sys, Run, env_new, sys_parse, allow_run_parse, run_query_parse}

    unfoldable pub parse_env_descriptor : Bytes → Parsed Env
    parse_env_descriptor [] = err empty_env_descriptor
    parse_env_descriptor (c ∷ s) = ok (env_new (c ∷ s))

    unfoldable pub parse_sys_descriptor : Bytes → Parsed Sys
    parse_sys_descriptor [] = err empty_sys_descriptor
    parse_sys_descriptor (c ∷ s) = sys_parse (c ∷ s)

    unfoldable pub parse_allow_run_descriptor : Bytes → Parsed Run
    unfolding resolve_cwd
    parse_allow_run_descriptor text = do cwd ← resolve_cwd; allow_run_parse text cwd

    unfoldable pub parse_run_query : Bytes → Parsed Run
    parse_run_query [] = err empty_run_query
    parse_run_query (c ∷ s) = elim (run_query_parse (c ∷ s)) [
      | ok r ↦ ok r
      | err e ↦ err path_resolve
    ]

  abbrev IsResolved : FilePath → Type 0
  IsResolved p = (is_absolute p ≡ true) × ((q : FilePath) × (p ≡ normalize_path q))

  normalize_path-IsResolved :
      (q p : FilePath) → is_absolute q ≡ true → normalize_path q ≡ p → IsResolved p
  normalize_path-IsResolved q p h e = (rw (← e) (is_absolute-normalize_path q h), (q, sym e))

  resolve_from_cwd-IsResolved :
      ((d : Bytes) → current_dir ≡ some d → is_absolute (from d) ≡ true)
      → (text : Bytes) (p : FilePath) → resolve_from_cwd text ≡ ok p
      → IsResolved p
  unfolding resolve_from_cwd
  resolve_from_cwd-IsResolved cwd_absolute [] p h = absurd (cc)
  resolve_from_cwd-IsResolved cwd_absolute (c ∷ s) p h =
      elim (Bool-cases (is_absolute (from (c ∷ s)))) [
        | inl absolute ↦
            normalize_path-IsResolved (from (c ∷ s)) p absolute
              (cc (rw (absolute, resolve_from_cwd) at h))
        | inr relative ↦ elim (Option-cases current_dir) [
          | inl missing ↦ absurd (cc (rw (relative, missing, resolve_from_cwd) at h))
          | inr (d, there) ↦
              normalize_path-IsResolved (join (from d) (from (c ∷ s))) p
                (is_absolute-join _ _ (cwd_absolute d there))
                (cc (rw (relative, there, resolve_from_cwd) at h))
        ]
      ]

  abbrev path_or : FilePath → Parsed (FilePath × Bytes) → FilePath
  path_or d (ok x) = x.0
  path_or d (err e) = d

  abbrev text_or : Bytes → Parsed (FilePath × Bytes) → Bytes
  text_or d (ok x) = x.1
  text_or d (err e) = d

  -- With an absolute working directory every path query that is accepted has an absolute and
  -- normalised path, and keeps the text that was asked for.
  pub parse_path_query-IsResolved :
      ((d : Bytes) → current_dir ≡ some d → is_absolute (from d) ≡ true)
      → (text : Bytes) (p : FilePath) (asked : Bytes) → parse_path_query text ≡ ok (p, asked)
      → (is_absolute p ≡ true) × ((q : FilePath) × (p ≡ normalize_path q)) × (asked ≡ text)
  unfolding parse_path_query
  parse_path_query-IsResolved cwd_absolute text p asked h = go (resolve_from_cwd text) refl h
    where
      go :
          (r : Parsed FilePath)
          → resolve_from_cwd text ≡ r
          → ◌>>=◌ {B = FilePath × Bytes} r (λ q. ok (q, text)) ≡ ok (p, asked)
          → (is_absolute p ≡ true) × ((q : FilePath) × (p ≡ normalize_path q)) × (asked ≡ text)
      go (ok q) e k =
          let path = ap (path_or q) k in
          let resolved = resolve_from_cwd-IsResolved cwd_absolute text q e in
          (
            rw path at resolved.0,
            (resolved.1.0, sym path ∙ resolved.1.1),
            sym (ap (text_or text) k),
          )
      go (err w) e k = absurd (cc)
