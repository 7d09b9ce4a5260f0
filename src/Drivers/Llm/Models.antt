-- ===== src/Drivers/Llm/Models.antt =====
-- crates/blockless-drivers/src/llm_driver/models.rs: the models that can be asked for, and what a
-- custom URL has to satisfy. A text is the list of its characters; the texts of the errors are
-- constructors, and the URL library is a parameter.
pub mod Trusted
use bls_runtime.Prelude.{
  ℕ, Bool, true, false, not, ◌&&◌, ◌||◌, Option, none, some, List, [], ◌∷◌, ◌++◌, Bytes, codes,
  if◌then◌else◌, leb, ltb, ◌≡◌, refl,
}
use bls_runtime.Prelude.Assoc.{Assoc, lookup}
use bls_runtime.Prelude.Text.{bytes_eq, bytes_beq, starts_with, contains, ends_with}
use bls_runtime.Prelude.Result.{Result, ok, err, ◌>>=◌, ◌>>◌, ok_or, guard}

pub record Urls : Type 1 where
  pub Url : Type 0
  pub parse : Bytes → Option Url
  pub scheme : Url → Bytes
  pub host_str : Url → Option Bytes
  pub path : Url → Bytes
  pub path_segments : Url → Option (List Bytes)
  pub to_string : Url → Bytes

pub data ModelError : Type 0 where
  insecure no_host untrusted_domain suspicious_path no_filename system_path : ModelError
  path_traversal invalid_extension empty_filename control_characters invalid_name : ModelError

pub record SecurityConfig : Type 0 where
  pub allowed_domains : List Bytes
  pub require_https : Bool
  pub allowed_file_extensions : List Bytes

abbrev pub default_config : SecurityConfig
default_config = record {
  allowed_domains = codes "huggingface.co" ∷ codes "github.com" ∷ codes "releases.github.com" ∷ [];
  require_https = true;
  allowed_file_extensions = codes ".llamafile" ∷ [];
}

abbrev pub any {ℓ} : {A : Type ℓ} → (A → Bool) → List A → Bool
any p [] = false
any p (x ∷ xs) = p x || any p xs

-- The control characters of ASCII and of Latin-1.
abbrev pub is_control : ℕ → Bool
is_control c = ltb c 32 || (leb 127 c && leb c 159)

abbrev pub is_empty : Bytes → Bool
is_empty [] = true
is_empty (c ∷ s) = false

unfoldable pub validate_filename : SecurityConfig → Bytes → Result ModelError (Unit {0})
validate_filename config filename = do
  guard
      (not (
        contains (codes "..") filename
        || contains (codes "/") filename
        || contains (92 ∷ []) filename))
      path_traversal
  guard (any (λ ext. ends_with ext filename) config.allowed_file_extensions) invalid_extension
  guard (not (is_empty filename)) empty_filename
  guard (not (any is_control filename)) control_characters

abbrev pub last {ℓ} : {A : Type ℓ} → List A → Option A
last [] = none
last (x ∷ []) = some x
last (x ∷ y ∷ xs) = last (y ∷ xs)

abbrev pub and_then {ℓ κ} : {A : Type ℓ} {B : Type κ} → Option A → (A → Option B) → Option B
and_then none f = none
and_then (some a) f = f a

abbrev pub unwrap_or {ℓ} : {A : Type ℓ} → A → Option A → A
unwrap_or d none = d
unwrap_or d (some a) = a

abbrev pub is_system_path : Bytes → Bool
is_system_path path =
    starts_with (codes "/etc/") path
    || starts_with (codes "/windows/") path
    || starts_with (codes "/system32/") path

module _ (urls : Urls) where
  unfoldable pub validate_model_url : SecurityConfig → urls.Url → Result ModelError (Unit {0})
  validate_model_url config url = do
    guard (not (config.require_https && not (bytes_beq (urls.scheme url) (codes "https")))) insecure
    host ← ok_or no_host (urls.host_str url)
    guard
        (any (λ domain. bytes_beq host domain || ends_with (b'.' ∷ domain) host)
          config.allowed_domains)
        untrusted_domain
    guard (not (contains (codes "..") (urls.path url))) suspicious_path
    filename ← ok_or no_filename (and_then (urls.path_segments url) last)
    validate_filename config filename
    guard (not (is_system_path (urls.path url))) system_path

  -- A named model has the quantization that was asked for.
  pub data Models : Type 0 where
    llama321_b_instruct llama323_b_instruct mistral7_b_instruct_v03 : Option Bytes → Models
    mixtral8x7_b_instruct_v01 gemma22_b_instruct gemma27_b_instruct : Option Bytes → Models
    gemma29_b_instruct : Option Bytes → Models
    url : urls.Url → Models

  -- The file name of a repository, from the quantization.
  abbrev file : Bytes → Option Bytes → Bytes
  file name quantization = name ++ (b'.' ∷ unwrap_or (codes "Q6_K.llamafile") quantization)

  unfoldable pub model_repo : Models → Option Bytes
  model_repo (llama321_b_instruct q) = some (codes "Mozilla/Llama-3.2-1B-Instruct-llamafile")
  model_repo (llama323_b_instruct q) = some (codes "Mozilla/Llama-3.2-3B-Instruct-llamafile")
  model_repo (mistral7_b_instruct_v03 q) = some (codes "Mozilla/Mistral-7B-Instruct-v0.3-llamafile")
  model_repo (mixtral8x7_b_instruct_v01 q) =
      some (codes "Mozilla/Mixtral-8x7B-Instruct-v0.1-llamafile")
  model_repo (gemma22_b_instruct q) = some (codes "Mozilla/gemma-2-2b-it-llamafile")
  model_repo (gemma27_b_instruct q) = some (codes "Mozilla/gemma-2-27b-it-llamafile")
  model_repo (gemma29_b_instruct q) = some (codes "Mozilla/gemma-2-9b-it-llamafile")
  model_repo (url u) = none

  -- `none` where an `unwrap` panics.
  unfoldable pub model_file : Models → Option Bytes
  model_file (llama321_b_instruct q) = some (file (codes "Llama-3.2-1B-Instruct") q)
  model_file (llama323_b_instruct q) = some (file (codes "Llama-3.2-3B-Instruct") q)
  model_file (mistral7_b_instruct_v03 q) = some (file (codes "Mistral-7B-Instruct-v0.3") q)
  model_file (mixtral8x7_b_instruct_v01 q) = some (file (codes "Mixtral-8x7B-Instruct-v0.1") q)
  model_file (gemma22_b_instruct q) = some (file (codes "gemma-2-2b-it") q)
  model_file (gemma27_b_instruct q) = some (file (codes "gemma-2-27b-it") q)
  model_file (gemma29_b_instruct q) = some (file (codes "gemma-2-9b-it") q)
  model_file (url u) = and_then (urls.path_segments u) last

  abbrev q6 : Option Bytes
  q6 = some (codes "Q6_K")

  abbrev q4 : Option Bytes
  q4 = some (codes "q4f16_1")

  -- The texts that the match of `from_str` lists.
  abbrev pub names : Assoc Bytes Models
  names =
      (codes "Llama-3.2-1B-Instruct", llama321_b_instruct none)
      ∷ (codes "Llama-3.2-1B-Instruct-Q6_K", llama321_b_instruct q6)
      ∷ (codes "Llama-3.2-1B-Instruct_Q6_K", llama321_b_instruct q6)
      ∷ (codes "Llama-3.2-1B-Instruct.Q6_K", llama321_b_instruct q6)
      ∷ (codes "Llama-3.2-1B-Instruct-q4f16_1", llama321_b_instruct q4)
      ∷ (codes "Llama-3.2-1B-Instruct.q4f16_1", llama321_b_instruct q4)
      ∷ (codes "Llama-3.2-3B-Instruct", llama323_b_instruct none)
      ∷ (codes "Llama-3.2-3B-Instruct-Q6_K", llama323_b_instruct q6)
      ∷ (codes "Llama-3.2-3B-Instruct_Q6_K", llama323_b_instruct q6)
      ∷ (codes "Llama-3.2-3B-Instruct.Q6_K", llama323_b_instruct q6)
      ∷ (codes "Llama-3.2-3B-Instruct-q4f16_1", llama323_b_instruct q4)
      ∷ (codes "Llama-3.2-3B-Instruct.q4f16_1", llama323_b_instruct q4)
      ∷ (codes "Mistral-7B-Instruct-v0.3", mistral7_b_instruct_v03 none)
      ∷ (codes "Mistral-7B-Instruct-v0.3-q4f16_1", mistral7_b_instruct_v03 q4)
      ∷ (codes "Mistral-7B-Instruct-v0.3.q4f16_1", mistral7_b_instruct_v03 q4)
      ∷ (codes "Mixtral-8x7B-Instruct-v0.1", mixtral8x7_b_instruct_v01 none)
      ∷ (codes "Mixtral-8x7B-Instruct-v0.1-q4f16_1", mixtral8x7_b_instruct_v01 q4)
      ∷ (codes "Mixtral-8x7B-Instruct-v0.1.q4f16_1", mixtral8x7_b_instruct_v01 q4)
      ∷ (codes "gemma-2-2b-it", gemma22_b_instruct none)
      ∷ (codes "gemma-2-2b-it-q4f16_1", gemma22_b_instruct q4)
      ∷ (codes "gemma-2-2b-it.q4f16_1", gemma22_b_instruct q4)
      ∷ (codes "gemma-2-27b-it", gemma27_b_instruct none)
      ∷ (codes "gemma-2-27b-it-q4f16_1", gemma27_b_instruct q4)
      ∷ (codes "gemma-2-27b-it.q4f16_1", gemma27_b_instruct q4)
      ∷ (codes "gemma-2-9b-it", gemma29_b_instruct none)
      ∷ (codes "gemma-2-9b-it-q4f16_1", gemma29_b_instruct q4)
      ∷ (codes "gemma-2-9b-it.q4f16_1", gemma29_b_instruct q4)
      ∷ []

  -- The last arm of the match.
  unfoldable pub custom_url : Bytes → Result ModelError Models
  custom_url s = do
    u ← ok_or invalid_name (urls.parse s)
    validate_model_url default_config u
    ok (url u)

  unfoldable pub from_str : Bytes → Result ModelError Models
  from_str s = elim (lookup s names) [ some model ↦ ok model | none ↦ custom_url s ]
