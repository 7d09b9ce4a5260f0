-- ===== src/Drivers/Llm/Models/Trusted.antt =====
-- What a custom model URL satisfies once it is accepted.
use mathlib.Core.Option.{some-injective}
use mathlib.Core.Path.{subst}
use bls_runtime.Prelude.{
  ℕ, ◌≤◌, ◌<◌, ◌≡◌, ◌≢◌, refl, ap, sym, ◌∙◌, Bool, true, false, not, ◌||◌, some, List, [], ◌∷◌,
  ◌++◌, Bytes, codes, leb, All, arith, Bool-cases, Option-cases, inl, inr, ◌⊎◌,
}
use bls_runtime.Prelude.Assoc.{Assoc, lookup}
use bls_runtime.Prelude.Split.{Without}
use bls_runtime.Prelude.Text.{
  bytes_eq, bytes_beq, bytes_beq_iff, starts_with, contains, ends_with, contains-append,
  ends_with-some,
}
use bls_runtime.Prelude.Result.{Result, ok, guard, ◌>>◌, >>-eq-ok, guard-eq-ok, ok_or-eq-ok}
use bls_runtime.Drivers.Llm.Models.{
  Urls, ModelError, invalid_name, invalid_extension, empty_filename, control_characters, is_empty,
  untrusted_domain, suspicious_path, no_filename, system_path, is_system_path, default_config, any,
  is_control, validate_filename, validate_model_url, last, and_then, Models, url,
  llama321_b_instruct, llama323_b_instruct, mistral7_b_instruct_v03, mixtral8x7_b_instruct_v01,
  gemma22_b_instruct, gemma27_b_instruct, gemma29_b_instruct, model_file, names, custom_url,
  from_str,
}

-- One of the members of a list.
abbrev pub Some {ℓ} : {A : Type ℓ} → (A → Type 0) → List A → Type 0
Some P [] = ⊥
Some P (x ∷ xs) = P x ⊎ Some P xs

any-Some {ℓ} :
    {A : Type ℓ} (P : A → Type 0) (p : A → Bool) (xs : List A)
    → ((x : A) → p x ≡ true → P x)
    → any p xs ≡ true
    → Some P xs
any-Some P p [] holds h = absurd (cc)
any-Some P p (x ∷ xs) holds h = elim (Bool-cases (p x)) [
  | inl yes_x ↦ inl (holds x yes_x)
  | inr no_x ↦ inr (any-Some P p xs holds (ground (arith, h, no_x)))
]

any-All {ℓ} :
    {A : Type ℓ} (P : A → Type 0) (p : A → Bool) (xs : List A)
    → ((x : A) → p x ≡ false → P x)
    → any p xs ≡ false
    → All P xs
any-All P p [] holds h = tt
any-All P p (x ∷ xs) holds h =
    (holds x (ground (arith, h)), any-All P p xs holds (ground (arith, h)))

contains-Without : (c : ℕ) (s : Bytes) → contains (c ∷ []) s ≡ false → Without c s
unfolding contains starts_with
contains-Without c [] h = tt
contains-Without c (d ∷ s) h = (ground (arith, h), contains-Without c s (ground (arith, h)))

-- The host is the domain, or a name under it.
abbrev pub IsUnder : Bytes → Bytes → Type 0
IsUnder host domain = (host ≡ domain) ⊎ ((front : Bytes) × (host ≡ front ++ (b'.' ∷ domain)))

abbrev pub HasExtension : Bytes → Bytes → Type 0
HasExtension f ext = (stem : Bytes) × (f ≡ stem ++ ext)

-- No path but a plain name with the extension of a model, without control characters.
abbrev pub IsFileName : Bytes → Type 0
IsFileName f =
    Some (HasExtension f) default_config.allowed_file_extensions
    × Without b'/' f
    × Without 92 f
    × ((a b : Bytes) → f ≢ a ++ (codes ".." ++ b))
    × All (λ c. (32 ≤ c) × ((c < 127) ⊎ (159 < c))) f

not-contains : (p s : Bytes) → contains p s ≡ false → (a b : Bytes) → s ≢ a ++ (p ++ b)
not-contains p s h a b e = cc (ap (contains p) e, h, contains-append p a b)

not_control : (c : ℕ) → is_control c ≡ false → (32 ≤ c) × ((c < 127) ⊎ (159 < c))
not_control c h = elim (Bool-cases (leb 127 c)) [
  | inl high ↦ (ground (arith, h), inr (ground (arith, h, high)))
  | inr low ↦ (ground (arith, h), inl (ground (arith, low)))
]

or_false : (a b : Bool) → (a || b) ≡ false → (a ≡ false) × (b ≡ false)
or_false a b h = ground arith

not-true : (a : Bool) → not a ≡ true → a ≡ false
not-true a h = ground arith

validate_filename-IsFileName :
    (f : Bytes) → validate_filename default_config f ≡ ok tt → IsFileName f
unfolding validate_filename
validate_filename-IsFileName f h =
    let (plain, h1) = guard-eq-ok _ _ _ h in
    let extensions = default_config.allowed_file_extensions in
    let (extension, h2) =
      guard-eq-ok (any (λ ext. ends_with ext f) extensions) invalid_extension _ h1 in
    let (filled, h3) = guard-eq-ok (not (is_empty f)) empty_filename _ h2 in
    let clean = last_guard (not (any is_control f)) control_characters h3 in
    let (others, backslash) = or_false _ _ (not-true _ plain) in
    let (dots, slash) = or_false _ _ others in
    (
      any-Some (HasExtension f) (λ ext. ends_with ext f) extensions (λ ext. ends_with-some ext f)
          extension,
      contains-Without b'/' f slash,
      contains-Without 92 f backslash,
      not-contains (codes "..") f dots,
      any-All _ is_control f not_control (not-true _ clean),
    )
  where
    last_guard : (t : Bool) (e : ModelError) → guard t e ≡ ok tt → t ≡ true
    last_guard true e h = refl
    last_guard false e h = cc

module _ (urls : Urls) where
  -- What is accepted of a URL, and the name of the file that it is kept in.
  abbrev pub IsTrusted : urls.Url → Bytes → Type 0
  IsTrusted u f =
      (urls.scheme u ≡ codes "https")
      × ((host : Bytes) × (urls.host_str u ≡ some host)
          × Some (IsUnder host) default_config.allowed_domains)
      × ((a b : Bytes) → urls.path u ≢ a ++ (codes ".." ++ b))
      × (model_file urls (url u) ≡ some f)
      × IsFileName f

  under :
      (host domain : Bytes)
      → (bytes_beq host domain || ends_with (b'.' ∷ domain) host) ≡ true
      → IsUnder host domain
  under host domain h = elim (Bool-cases (bytes_beq host domain)) [
    | inl same ↦ inl ((bytes_beq_iff host domain).0 same)
    | inr other ↦ inr (ends_with-some (b'.' ∷ domain) host (ground (arith, h, other)))
  ]

  validate_model_url-IsTrusted :
      (u : urls.Url)
      → validate_model_url urls default_config u ≡ ok tt
      → (f : Bytes) × IsTrusted u f
  unfolding validate_model_url model_file
  validate_model_url-IsTrusted u h =
      let domains = default_config.allowed_domains in
      let (secure, h1) = guard-eq-ok _ _ _ h in
      let (host, named, h2) = ok_or-eq-ok _ _ _ h1 in
      let (known, h3) =
        guard-eq-ok
          (any (λ domain. bytes_beq host domain || ends_with (b'.' ∷ domain) host) domains)
          untrusted_domain _ h2 in
      let (straight, h4) =
        guard-eq-ok (not (contains (codes "..") (urls.path u))) suspicious_path _ h3 in
      let (f, there, h5) =
        ok_or-eq-ok no_filename (and_then (urls.path_segments u) last)
          (λ name.
            validate_filename default_config name
            >> guard (not (is_system_path (urls.path u))) system_path)
          h4 in
      let (valid, h6) = >>-eq-ok (validate_filename default_config f) _ h5 in
      (
        f,
        (
          (bytes_beq_iff (urls.scheme u) (codes "https")).0 (https _ secure),
          (host, named, any-Some (IsUnder host) _ domains (under host) known),
          not-contains (codes "..") (urls.path u) (not-true _ straight),
          there,
          validate_filename-IsFileName f valid,
        ),
      )
    where
      https : (b : Bool) → not (not b) ≡ true → b ≡ true
      https true h = refl
      https false h = cc

  abbrev is_named : Models urls → Bool
  is_named (url u) = false
  is_named (llama321_b_instruct q) = true
  is_named (llama323_b_instruct q) = true
  is_named (mistral7_b_instruct_v03 q) = true
  is_named (mixtral8x7_b_instruct_v01 q) = true
  is_named (gemma22_b_instruct q) = true
  is_named (gemma27_b_instruct q) = true
  is_named (gemma29_b_instruct q) = true

  lookup-named :
      (s : Bytes) (m : Models urls) (table : Assoc Bytes (Models urls))
      → any (λ e. not (is_named e.1)) table ≡ false
      → lookup s table ≡ some m
      → is_named m ≡ true
  unfolding lookup
  lookup-named s m [] h e = absurd (cc)
  lookup-named s m ((k, n) ∷ table) h e = elim (Bool-cases (bytes_beq k s)) [
    | inl same ↦
        let here : is_named n ≡ true = ground (arith, h) in
        ap is_named (sym (some-injective _ _ (rw (same, lookup) at e))) ∙ here
    | inr other ↦ lookup-named s m table (ground (arith, h)) (rw (other, lookup) at e)
  ]

  url_injective :
      (u v : urls.Url) → ◌≡◌ {A = Result ModelError (Models urls)} (ok (url u)) (ok (url v)) → u ≡ v
  url_injective u v h = cc

  -- A text that is accepted as a custom model URL has the scheme https, a host that is one of the
  -- allowed domains or stands under one, no `..` in its path, and a last segment that is a file
  -- name: with the extension of a model, without separators, `..` and control characters. That
  -- name is the one under which the model is kept.
  pub from_str-IsTrusted :
      (s : Bytes) (u : urls.Url) → from_str urls s ≡ ok (url u) → (f : Bytes) × IsTrusted u f
  unfolding from_str custom_url
  from_str-IsTrusted s u h = elim (Option-cases (lookup s (names urls))) [
    | inr (m, known) ↦
        let named = lookup-named s m (names urls) refl known in
        absurd (cc (rw (known, from_str) at h, named))
    | inl unknown ↦
        let (v, parsed, h1) =
          ok_or-eq-ok invalid_name (urls.parse s)
            (λ v. validate_model_url urls default_config v >> ok (url v))
            (rw (unknown, from_str) at h) in
        let (valid, h2) = >>-eq-ok (validate_model_url urls default_config v) _ h1 in
        let (f, trusted) = validate_model_url-IsTrusted v valid in
        let same : v ≡ u = url_injective v u h2 in (f, subst (λ w. IsTrusted w f) same trusted)
  ]
