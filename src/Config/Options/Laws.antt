-- ===== src/Config/Options/Laws.antt =====
-- What `config` accepts, which value an option ends with, and the JSON path into it.
use bls_runtime.Prelude.{
  ◌≡◌, refl, ap, sym, ◌∙◌, Bool, true, false, Option, none, some, List, [], ◌∷◌, Bytes,
  Option-cases, inl, inr, if◌then◌else◌,
}
use bls_runtime.Prelude.Assoc.{lookup, insert, lookup-insert}
use bls_runtime.Prelude.Text.{bytes_eq, bytes_beq, strip_prefix, from_str_radix}
use bls_runtime.Config.Options.{
  OptKind, opt_level, regalloc, boolean, u32, u64, usize, OptValue, opt_fields, parse_value,
  OptimizeOpts, item_value, config, optimize_options,
}

-- The value of the last item that is named `k`.
unfoldable pub last_value : Bytes → List (Bytes × Bytes) → Option OptValue
last_value k [] = none
last_value k (item ∷ items) = elim (last_value k items) [
  | some v ↦ some v
  | none ↦ if bytes_beq item.0 k then item_value item else none
]

abbrev pub or_else {ℓ} : {A : Type ℓ} → Option A → Option A → Option A
or_else (some a) o = some a
or_else none o = o

config_item :
    (item : Bytes × Bytes) (items : List (Bytes × Bytes)) (opts r : OptimizeOpts)
    → config (item ∷ items) opts ≡ (true, r)
    → (v : OptValue) × (item_value item ≡ some v)
      × (config items (insert item.0 v opts) ≡ (true, r))
unfolding config
config_item item items opts r h = elim (Option-cases (item_value item)) [
  | inl bad ↦ absurd (cc (ap (λ (x : Bool × OptimizeOpts). x.0) (rw (bad, config) at h)))
  | inr (v, good) ↦ (v, good, rw (good, config) at h)
]

-- Where `config` succeeds, each option has the value of the last item that names it, and one that
-- no item names keeps the value it had.
pub config_last_wins :
    (items : List (Bytes × Bytes)) (opts r : OptimizeOpts) (k : Bytes)
    → config items opts ≡ (true, r)
    → lookup k r ≡ or_else (last_value k items) (lookup k opts)
unfolding config last_value
config_last_wins [] opts r k h = ap (lookup k) (sym (ap (λ (x : Bool × OptimizeOpts). x.1) h))
config_last_wins (item ∷ items) opts r k h =
    let (v, good, rest) = config_item item items opts r h in
    config_last_wins items (insert item.0 v opts) r k rest
    ∙ rw (lookup-insert item.0 k v opts)
        (cases (last_value k items) (bytes_beq item.0 k) v (item_value item) (lookup k opts) good)
  where
    cases :
        (later : Option OptValue) (same : Bool) (v : OptValue) (mine old : Option OptValue)
        → mine ≡ some v
        → or_else later (if same then some v else old)
          ≡ or_else (elim later [ some w ↦ some w | none ↦ if same then mine else none ]) old
    cases (some w) same v mine old e = refl
    cases none true v mine old e = rw e refl
    cases none false v mine old e = refl

quoted_value : (kind : OptKind) (s : Bytes) → parse_value kind (b'"' ∷ s) ≡ none
unfolding parse_value strip_prefix from_str_radix bytes_beq
quoted_value opt_level s = refl
quoted_value regalloc s = refl
quoted_value boolean s = refl
quoted_value u32 s = refl
quoted_value u64 s = refl
quoted_value usize s = refl

quoted_item : (name s : Bytes) → item_value (name, b'"' ∷ s) ≡ none
unfolding item_value
quoted_item name s = elim (Option-cases (lookup name opt_fields)) [
  | inl unknown ↦ rw (unknown, item_value) refl
  | inr (kind, known) ↦ rw (known, item_value) (quoted_value kind s)
]

-- Where `json::stringify` puts a text in quotes, no object with an entry is accepted as the
-- `optimize` item of a configuration file, whatever its options and values are.
pub optimize_options_rejects :
    {Json : Type 0} (stringify : Bytes → Bytes) (entry : Bytes × Json)
    (entries : List (Bytes × Json))
    → ((k : Bytes) → (s : Bytes) × (stringify k ≡ b'"' ∷ s))
    → optimize_options stringify (entry ∷ entries) ≡ none
unfolding optimize_options
optimize_options_rejects stringify entry entries quotes =
    let (s, quoted) = quotes entry.0 in
    let refused : item_value (entry.0, stringify entry.0) ≡ none =
      rw quoted (quoted_item entry.0 s) in
    rw (refused, config) refl
