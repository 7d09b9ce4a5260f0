-- ===== src/Cli/Files/Laws.antt =====
-- What a configuration file that is accepted contains.
use mathlib.Core.Option.{some-injective}
use mathlib.Core.Path.{subst}
use bls_runtime.Prelude.{
  ℕ, ◌≤◌, ◌<◌, ◌+◌, ◌≡◌, refl, ap, sym, ◌∙◌, Bool, true, Option, none, some, List, [], ◌∷◌, Bytes,
  codes, All, length, arith, if◌then◌else◌, Bool-cases, ◌⊎◌, Option-cases, inl, inr,
}
use bls_runtime.Multiaddr
use bls_runtime.Multiaddr.{MultiAddr, Result, ok, err, parse, schema, slice}
use bls_runtime.Multiaddr.Layout.{IsLaidOut, is_segment_byte, parse-IsLaidOut}
use bls_runtime.Config
use bls_runtime.Config.{
  Permission, BlocklessConfig, set_permisions, limited_memory, max_memory_size,
}
use bls_runtime.Cli.{Outcome, done, refused, panics, exits, ◌>>=◌, or_refused}
use bls_runtime.Cli.Files.{or_panics, read_optimize, read_version, read_fields, from_json_string}
use bls_runtime.Cli.Files.Items.{
  JsonLibrary, map_dirs, permission_of, filter_permissions, permissions, or_empty,
}

-- The schema is a part of the URL that is not empty, and holds no separator.
abbrev pub IsRead : Permission → Type 0
IsRead p =
    (begin stop : ℕ) × (begin < stop)
    × (stop ≤ length p.url)
    × (p.schema ≡ slice p.url begin stop)
    × All (λ c. is_segment_byte c ≡ true) p.schema

or_same {ℓ} : {A : Type ℓ} → A → Result A → A
or_same d (ok a) = a
or_same d (err e) = d

ok-injective {ℓ} : {A : Type ℓ} (a b : A) → ok a ≡ ok b → a ≡ b
unfolding or_same
ok-injective a b h = ap (or_same a) h

Result-cases {ℓ} :
    {A : Type ℓ} (r : Result A) → ((a : A) × (r ≡ ok a)) ⊎ ((e : Multiaddr.Error) × (r ≡ err e))
Result-cases (ok a) = inl (a, refl)
Result-cases (err e) = inr (e, refl)

schema-IsRead :
    (from_utf8 : Bytes → Bool) (url s : Bytes) (addr : MultiAddr)
    → IsLaidOut url 0 addr.paths (length url + 1)
    → schema from_utf8 addr ≡ ok s
    → IsRead (record { url = url; schema = s })
unfolding schema
schema-IsRead from_utf8 url s addr h e = go addr.paths h e
  where
    go :
        (ps : List Multiaddr.Indicator)
        → IsLaidOut url 0 ps (length url + 1)
        → (elim ps [
          | [] ↦ err Multiaddr.partial
          | p ∷ ps ↦ if from_utf8 p.val then ok p.val else err Multiaddr.invalid_token
        ])
          ≡ ok s
        → IsRead (record { url = url; schema = s })
    go [] h e = absurd (cc)
    go (p ∷ ps) (a, b, c, val, clean, rest) e = elim (Bool-cases (from_utf8 p.val)) [
      | inl text ↦
          let same : p.val ≡ s = ok-injective _ _ (rw text at e) in
          (
            p.begin,
            p.stop,
            b,
            omega (arith, c),
            sym same ∙ val,
            subst (λ v. All (λ c. is_segment_byte c ≡ true) v) same clean,
          )
      | inr binary ↦ absurd (cc (rw binary at e))
    ]

permission_of-IsRead :
    (from_utf8 : Bytes → Bool) (text : Option Bytes) (p : Permission)
    → permission_of from_utf8 text ≡ some p
    → IsRead p
unfolding permission_of
permission_of-IsRead from_utf8 none p h = absurd (cc)
permission_of-IsRead from_utf8 (some url) p h = elim (Result-cases (parse url)) [
  | inr (e, bad) ↦ absurd (cc (rw (bad, permission_of) at h))
  | inl (addr, read) ↦ elim (Result-cases (schema from_utf8 addr)) [
    | inr (e, bad) ↦ absurd (cc (rw (read, bad, permission_of) at h))
    | inl (s, named) ↦
        subst IsRead (some-injective _ _ (rw (read, named, permission_of) at h))
          (schema-IsRead from_utf8 url s addr (parse-IsLaidOut url addr read) named)
  ]
]

filter_permissions-IsRead :
    (lib : JsonLibrary) (from_utf8 : Bytes → Bool) (items : List lib.Value)
    → All IsRead (filter_permissions lib from_utf8 items)
unfolding filter_permissions
filter_permissions-IsRead lib from_utf8 [] = tt
filter_permissions-IsRead lib from_utf8 (v ∷ items) =
    elim (Option-cases (permission_of from_utf8 (lib.as_str v))) [
      | inl none_there ↦
          rw (none_there, filter_permissions) (filter_permissions-IsRead lib from_utf8 items)
      | inr (p, there) ↦
          rw (there, filter_permissions)
            (
              permission_of-IsRead from_utf8 (lib.as_str v) p there,
              filter_permissions-IsRead lib from_utf8 items,
            )
    ]

-- A step that is done, in front of others.
done-step :
    {A B : Type 0} (o : Outcome A) (f : A → Outcome B) (r : B)
    → (o >>= f) ≡ done r
    → (a : A) × (o ≡ done a) × (f a ≡ done r)
done-step (done a) f r h = (a, refl, h)
done-step refused f r h = absurd (cc)
done-step panics f r h = absurd (cc)
done-step exits f r h = absurd (cc)

or_refused-some : {A : Type 0} (o : Option A) (a : A) → or_refused o ≡ done a → o ≡ some a
or_refused-some none a h = absurd (cc)
or_refused-some (some b) a h = ap (λ x. elim x [ done y ↦ some y | _ ↦ none ]) h

or_panics-some : {A : Type 0} (o : Option A) (a : A) → or_panics o ≡ done a → o ≡ some a
or_panics-some none a h = absurd (cc)
or_panics-some (some b) a h = ap (λ x. elim x [ done y ↦ some y | _ ↦ none ]) h

done-same {ℓ} : {A : Type ℓ} (a b : A) → done a ≡ done b → a ≡ b
done-same a b h = ap (λ x. elim x [ done y ↦ y | _ ↦ a ]) h

-- A configuration file that is accepted is JSON whose `entry` is a text, the entry of the
-- configuration, and each permission of the configuration has as its schema a part of its own URL
-- that is not empty and is made of tokens other than `/`.
pub from_json_string-IsRead :
    (lib : JsonLibrary) (from_utf8 : Bytes → Bool) (text : Bytes) (c : BlocklessConfig)
    → from_json_string lib from_utf8 text ≡ done c
    → (json : lib.Value) × (lib.parse text ≡ some json)
      × (lib.as_str (lib.index json (codes "entry")) ≡ some c.entry)
      × All IsRead c.permisions
unfolding from_json_string read_fields permissions set_permisions limited_memory max_memory_size
    Config.new
from_json_string-IsRead lib from_utf8 text c h =
    let (json, parsed, h1) = done-step (or_refused (lib.parse text)) _ c h in
    let (entry, started, h2) =
      done-step (or_panics (lib.as_str (lib.index json (codes "entry")))) _ c h1 in
    let (dirs, _, h3) = done-step (map_dirs lib (lib.index json (codes "map_dirs"))) _ c h2 in
    let (opts, _, h4) =
      done-step (read_optimize lib (lib.index json (codes "optimize")) _) _ c h3 in
    let (version, _, h5) =
      done-step (read_version (lib.as_usize (lib.index json (codes "version"))) _) _ c h4 in
    let made = done-same _ c h5 in
    (
      json,
      or_refused-some (lib.parse text) json parsed,
      or_panics-some (lib.as_str (lib.index json (codes "entry"))) entry started
          ∙ ap (λ (x : BlocklessConfig). some x.entry) made,
      subst (λ (x : BlocklessConfig). All IsRead x.permisions) made
          (filter_permissions-IsRead lib from_utf8
            (or_empty (lib.array (lib.index json (codes "permissions"))))),
    )
