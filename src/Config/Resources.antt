-- ===== src/Config/Resources.antt =====
-- What a configuration grants, how permissions are grouped, and what its limits read as.
use bls_runtime.Prelude.{
  ◌≡◌, refl, ap, ◌∙◌, Bool, true, false, ◌&&◌, ◌||◌, Option, none, some, List, [], ◌∷◌, ◌++◌,
  append_assoc, Bytes, arith, leb, if◌then◌else◌, Bool-cases, inl, inr, All,
}
use bls_runtime.Prelude.Assoc.{Assoc, lookup, lookup-insert}
use bls_runtime.Prelude.Text.{
  bytes_eq, bytes_beq, bytes_beq_iff, starts_with, ascii_lower, to_ascii_lowercase,
}
use bls_runtime.Config.{
  Permission, is_permision, BlocklessConfig, group_push, group_all, set_permisions, any_permision,
  resource_permission, or_nil,
}

starts_with-append : (p s r : Bytes) → starts_with p s ≡ true → starts_with p (s ++ r) ≡ true
unfolding starts_with
starts_with-append [] s r h = refl
starts_with-append (c ∷ p) [] r h = cc
starts_with-append (c ∷ p) (d ∷ s) r h = ground (arith, starts_with-append p s r)

to_ascii_lowercase-append :
    (s r : Bytes) → to_ascii_lowercase (s ++ r) ≡ to_ascii_lowercase s ++ to_ascii_lowercase r
unfolding to_ascii_lowercase
to_ascii_lowercase-append [] r = refl
to_ascii_lowercase-append (c ∷ s) r = ap (◌∷◌ (ascii_lower c)) (to_ascii_lowercase-append s r)

is_permision-append :
    (p : Permission) (url rest : Bytes)
    → is_permision p url ≡ true
    → is_permision p (url ++ rest) ≡ true
unfolding is_permision
is_permision-append p url rest h =
    rw (to_ascii_lowercase-append url rest) (starts_with-append p.url _ _ h)

any_permision-append :
    (ps : List Permission) (url rest : Bytes)
    → any_permision ps url ≡ true
    → any_permision ps (url ++ rest) ≡ true
unfolding any_permision
any_permision-append [] url rest h = cc
any_permision-append (p ∷ ps) url rest h =
    ground (arith, is_permision-append p url rest, any_permision-append ps url rest)

-- What is granted for a URL is granted for every URL that goes on from it, also where the URL
-- stops inside a host name.
pub resource_permission-append :
    (c : BlocklessConfig) (url rest : Bytes)
    → resource_permission c url ≡ true
    → resource_permission c (url ++ rest) ≡ true
unfolding resource_permission
resource_permission-append c url rest h = any_permision-append c.permisions url rest h

-- A text holds a capital letter.
unfoldable pub has_capital : Bytes → Bool
has_capital [] = false
has_capital (c ∷ s) = (leb b'A' c && leb c b'Z') || has_capital s

capital_no_prefix :
    (p s : Bytes) → has_capital p ≡ true → starts_with p (to_ascii_lowercase s) ≡ false
unfolding has_capital starts_with to_ascii_lowercase
capital_no_prefix [] s h = cc
capital_no_prefix (c ∷ p) [] h = refl
capital_no_prefix (c ∷ p) (d ∷ s) h = ground (arith, capital_no_prefix p s)

any_permision-capital :
    (ps : List Permission) (url : Bytes)
    → All (λ (p : Permission). has_capital p.url ≡ true) ps
    → any_permision ps url ≡ false
unfolding any_permision is_permision
any_permision-capital [] url h = refl
any_permision-capital (p ∷ ps) url h =
    rw (capital_no_prefix p.url url h.0) (any_permision-capital ps url h.1)

-- Permissions whose URLs hold a capital letter grant nothing: only the URL that is asked for is
-- put into lower case.
pub capital_grants_nothing :
    (c : BlocklessConfig) (url : Bytes)
    → All (λ (p : Permission). has_capital p.url ≡ true) c.permisions
    → resource_permission c url ≡ false
unfolding resource_permission
capital_grants_nothing c url h = any_permision-capital c.permisions url h

-- The permissions of one schema, in order.
unfoldable pub with_schema : Bytes → List Permission → List Permission
with_schema s [] = []
with_schema s (p ∷ ps) =
    let rest = with_schema s ps in if bytes_beq p.schema s then p ∷ rest else rest

abbrev pub as_group : List Permission → Option (List Permission)
as_group [] = none
as_group (p ∷ ps) = some (p ∷ ps)

abbrev grown : Option (List Permission) → List Permission → Option (List Permission)
grown o [] = o
grown o (p ∷ ps) = some (or_nil o ++ (p ∷ ps))

group_push-lookup :
    (p : Permission) (groups : Assoc Bytes (List Permission)) (s : Bytes)
    → lookup s (group_push p groups) ≡ (
        if bytes_beq p.schema s
        then some (or_nil (lookup s groups) ++ (p ∷ []))
        else lookup s groups)
unfolding group_push
group_push-lookup p groups s = elim (Bool-cases (bytes_beq p.schema s)) [
  | inl same ↦
      let e : p.schema ≡ s = (bytes_beq_iff p.schema s).0 same in
      lookup-insert p.schema s _ groups ∙ rw (same, e) refl
  | inr other ↦ lookup-insert p.schema s _ groups ∙ rw other refl
]

lookup-nil : (s : Bytes) → lookup {V = List Permission} s [] ≡ none
unfolding lookup
lookup-nil s = refl

grown_push :
    (b : Bool) (p : Permission) (o : Option (List Permission)) (rest : List Permission)
    → grown (if b then some (or_nil o ++ (p ∷ [])) else o) rest
      ≡ grown o (if b then p ∷ rest else rest)
grown_push true p o [] = refl
grown_push true p o (q ∷ qs) = ap some (append_assoc (or_nil o) (p ∷ []) (q ∷ qs))
grown_push false p o rest = refl

group_all-lookup :
    (ps : List Permission) (groups : Assoc Bytes (List Permission)) (s : Bytes)
    → lookup s (group_all ps groups) ≡ grown (lookup s groups) (with_schema s ps)
unfolding group_all with_schema
group_all-lookup [] groups s = refl
group_all-lookup (p ∷ ps) groups s =
    group_all-lookup ps (group_push p groups) s
    ∙ rw group_push-lookup
        (grown_push (bytes_beq p.schema s) p (lookup s groups) (with_schema s ps))

-- After `set_permisions` the group of a schema is the list of the permissions of that schema, in
-- their order, and a schema that no permission has is no group; the list of all is kept beside.
pub set_permisions-groups :
    (ps : List Permission) (c : BlocklessConfig) (s : Bytes)
    → (lookup s (set_permisions ps c).group_permisions ≡ as_group (with_schema s ps))
      × ((set_permisions ps c).permisions ≡ ps)
unfolding set_permisions
set_permisions-groups ps c s = (group_all-lookup ps [] s ∙ empty_grown (with_schema s ps), refl)
  where
    empty_grown : (qs : List Permission) → grown (lookup s []) qs ≡ as_group qs
    empty_grown [] = lookup-nil s
    empty_grown (q ∷ qs) = rw lookup-nil refl
