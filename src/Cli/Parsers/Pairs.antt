-- ===== src/Cli/Parsers/Pairs.antt =====
-- What the parsers of `key=value` texts accept, and how many engine options one text can set.
use bls_runtime.Prelude.{
  ℕ, suc, ◌≡◌, ◌↔◌, refl, ap, ◌∙◌, true, false, Option, none, some, [], ◌∷◌, ◌++◌, Bytes, codes,
  if◌then◌else◌, ◌==◌, arith, Bool-cases, Option-cases, ◌⊎◌, inl, inr, ◌≤◌,
}
use bls_runtime.Prelude.Split.{split_first, split_first-append, split_first-some, Without}
use bls_runtime.Prelude.Text.{bytes_eq, strip_prefix}
use bls_runtime.Config.Options.{item_value, config}
use bls_runtime.Cli.{done, refused}
use bls_runtime.Cli.Parsers.{parse_envs, parse_items, two_pieces, parse_opts}
use bls_runtime.Cli.Parsers.Commas.{has_comma, bytes_beq-comma, item_value-comma}

done_injective {ℓ} : {A : Type ℓ} (a b : A) → done a ≡ done b → a ≡ b
done_injective a b h = ap (λ o. elim o [ done x ↦ x | _ ↦ a ]) h

-- A text is accepted as an environment variable with key `k` and value `v` exactly when it is `k`,
-- then `=`, then `v`, and `k` holds no `=`; the value may hold more of them.
parse_envs_iff :
    (s k v : Bytes) → (parse_envs s ≡ done (k, v)) ↔ ((s ≡ k ++ (b'=' ∷ v)) × Without b'=' k)
unfolding parse_envs
parse_envs_iff s k v = (accepted, made)
  where
    accepted : parse_envs s ≡ done (k, v) → (s ≡ k ++ (b'=' ∷ v)) × Without b'=' k
    accepted h = elim (Option-cases (split_first (codes "=") s).1) [
      | inl e ↦ absurd (cc (rw (e, parse_envs) at h))
      | inr (w, e) ↦
          let pair = done_injective _ _ (rw (e, parse_envs) at h) in
          let key : (split_first (codes "=") s).0 ≡ k = ap (λ (x : Bytes × Bytes). x.0) pair in
          let value : w ≡ v = ap (λ (x : Bytes × Bytes). x.1) pair in
          split_first-some b'=' s k v
            (rw (← key, ← value) (ap (λ o. ((split_first (codes "=") s).0, o)) e))
    ]

    made : (s ≡ k ++ (b'=' ∷ v)) × Without b'=' k → parse_envs s ≡ done (k, v)
    made (e, h) =
        let cut : split_first (codes "=") s ≡ (k, some v) =
          ap (split_first (codes "=")) e ∙ split_first-append b'=' k v h in
        let key : (split_first (codes "=") s).0 ≡ k = ap (λ (x : Bytes × Option Bytes). x.0) cut in
        let value : (split_first (codes "=") s).1 ≡ some v =
          ap (λ (x : Bytes × Option Bytes). x.1) cut in
        rw (value, parse_envs) (ap (λ t. done (t, v)) key)

-- How many commas a text has.
unfoldable pub commas : Bytes → ℕ
commas [] = 0
commas (c ∷ s) = if c == b',' then suc (commas s) else commas s

commas-some : (s : Bytes) → 1 ≤ commas s → has_comma s ≡ true
unfolding commas
commas-some [] h = absurd (omega arith)
commas-some (c ∷ s) h = ground (arith, commas-some s, h)

-- A second comma stays in what stands behind the first.
split_first-comma :
    (s : Bytes)
    → 2 ≤ commas s
    → (rest : Bytes) × ((split_first (codes ",") s).1 ≡ some rest) × (has_comma rest ≡ true)
unfolding split_first strip_prefix commas
split_first-comma [] h = absurd (omega arith)
split_first-comma (c ∷ s) h = elim (Bool-cases (c == b',')) [
  | inl e ↦
      let same : (b',' == c) ≡ true = ground (arith, e) in
      (s, rw (same, split_first, strip_prefix) refl, commas-some s (ground (arith, e, h)))
  | inr e ↦
      let other : (b',' == c) ≡ false = ground (arith, e) in
      let (rest, cut, comma) = split_first-comma s (ground (arith, e, h)) in
      (rest, rw (other, split_first, strip_prefix) cut, comma)
]

config-last : (a b : Bytes × Bytes) → item_value b ≡ none → (config (a ∷ b ∷ []) []).0 ≡ false
unfolding config
config-last a b h = elim (Option-cases (item_value a)) [
  | inl e ↦ rw (e, config) refl
  | inr (v, e) ↦ rw (e, h, config) refl
]

envs-cases : (s : Bytes) → (parse_envs s ≡ refused) ⊎ ((k v : Bytes) × (parse_envs s ≡ done (k, v)))
unfolding parse_envs
envs-cases s = elim (Option-cases (split_first (codes "=") s).1) [
  | inl e ↦ inl (rw (e, parse_envs) refl)
  | inr (v, e) ↦ inr ((split_first (codes "=") s).0, v, rw (e, parse_envs) refl)
]

-- Options are separated by commas, but a text with two commas or more is always refused, so one
-- `--opt` sets two options at most.
pub parse_opts-crowded : (opt : Bytes) → 2 ≤ commas opt → parse_opts opt ≡ refused
unfolding parse_opts two_pieces parse_items
parse_opts-crowded opt h =
    let (rest, cut, comma) = split_first-comma opt h in
    let first = (split_first (codes ",") opt).0 in
    let word = bytes_beq-comma opt (codes "help") (commas-some opt (omega (arith, h))) refl in
    elim (envs-cases first) [
      | inl bad ↦ rw (word, cut, bad, parse_opts, two_pieces, parse_items) refl
      | inr (j, u, good) ↦ elim (envs-cases rest) [
        | inl bad ↦ rw (word, cut, good, bad, parse_opts, two_pieces, parse_items) refl
        | inr (k, v, last) ↦
            let text = ((parse_envs_iff rest k v).0 last).0 in
            let bare = config-last (j, u) (k, v) (item_value-comma k v (rw (← text) comma)) in
            rw (word, cut, good, last, bare, parse_opts, two_pieces, parse_items) refl
      ]
    ]
