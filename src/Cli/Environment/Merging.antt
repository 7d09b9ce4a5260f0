-- ===== src/Cli/Environment/Merging.antt =====
-- The variables that a run gets: their order, and which value a name has.
use bls_runtime.Prelude.{
  ◌≡◌, refl, ap, sym, ◌∙◌, Bool, true, false, Option, none, some, List, [], ◌∷◌, ◌++◌, Bytes,
  if◌then◌else◌, All, All-append, arith, Bool-cases, if_intro, inl, inr,
}
use bls_runtime.Prelude.Assoc.{lookup}
use bls_runtime.Prelude.Text.{bytes_eq, bytes_beq, bytes_beq_iff}
use bls_runtime.Config.Options.Laws.{or_else}
use bls_runtime.Cli.{done, CliCommandOpts}
use bls_runtime.Cli.Environment.{
  EnvVars, remove_first, set_all, le_bytes, sort_in, sort_by_key, file_vars, load_environment_vars,
}

le_bytes_refl : (a : Bytes) → le_bytes a a ≡ true
unfolding le_bytes
le_bytes_refl [] = refl
le_bytes_refl (x ∷ a) = ground (arith, le_bytes_refl a)

le_bytes_total : (a b : Bytes) → le_bytes a b ≡ false → le_bytes b a ≡ true
unfolding le_bytes
le_bytes_total [] b h = absurd (cc)
le_bytes_total (x ∷ a) [] h = refl
le_bytes_total (x ∷ a) (y ∷ b) h = ground (arith, le_bytes_total a b, h)

le_bytes_trans : (a b c : Bytes) → le_bytes a b ≡ true → le_bytes b c ≡ true → le_bytes a c ≡ true
unfolding le_bytes
le_bytes_trans [] b c h k = refl
le_bytes_trans (x ∷ a) [] c h k = absurd (cc)
le_bytes_trans (x ∷ a) (y ∷ b) [] h k = absurd (cc)
le_bytes_trans (x ∷ a) (y ∷ b) (z ∷ c) h k = ground (arith, le_bytes_trans a b c, h, k)

-- Every key is at most each key behind it.
abbrev pub IsSorted : EnvVars → Type 0
IsSorted [] = Unit
IsSorted (e ∷ m) = All (λ (f : Bytes × Bytes). le_bytes e.0 f.0 ≡ true) m × IsSorted m

below_all :
    (a b : Bytes) (m : EnvVars)
    → le_bytes a b ≡ true
    → All (λ (f : Bytes × Bytes). le_bytes b f.0 ≡ true) m
    → All (λ (f : Bytes × Bytes). le_bytes a f.0 ≡ true) m
below_all a b [] h k = tt
below_all a b (f ∷ m) h k = (le_bytes_trans a b f.0 h k.0, below_all a b m h k.1)

sort_in_below :
    (a : Bytes) (e : Bytes × Bytes) (m : EnvVars)
    → le_bytes a e.0 ≡ true
    → All (λ (f : Bytes × Bytes). le_bytes a f.0 ≡ true) m
    → All (λ (f : Bytes × Bytes). le_bytes a f.0 ≡ true) (sort_in e m)
unfolding sort_in
sort_in_below a e [] h k = (h, tt)
sort_in_below a e (f ∷ m) h k =
    if_intro (All (λ (f : Bytes × Bytes). le_bytes a f.0 ≡ true)) (le_bytes e.0 f.0) (λ _. (h, k))
      (λ _. (k.0, sort_in_below a e m h k.1))

sort_in-IsSorted : (e : Bytes × Bytes) (m : EnvVars) → IsSorted m → IsSorted (sort_in e m)
unfolding sort_in
sort_in-IsSorted e [] h = (tt, tt)
sort_in-IsSorted e (f ∷ m) h =
    if_intro IsSorted (le_bytes e.0 f.0) (λ below. ((below, below_all e.0 f.0 m below h.0), h))
      (λ above.
        (sort_in_below f.0 e m (le_bytes_total e.0 f.0 above) h.0, sort_in-IsSorted e m h.1))

sort_by_key-IsSorted : (m : EnvVars) → IsSorted (sort_by_key m)
unfolding sort_by_key
sort_by_key-IsSorted [] = tt
sort_by_key-IsSorted (e ∷ m) = sort_in-IsSorted e (sort_by_key m) (sort_by_key-IsSorted m)

-- The sort keeps the first value of every name.
lookup-sort_in :
    (k : Bytes) (e : Bytes × Bytes) (m : EnvVars) → lookup k (sort_in e m) ≡ lookup k (e ∷ m)
unfolding sort_in lookup
lookup-sort_in k e [] = refl
lookup-sort_in k e (f ∷ m) =
    ground (arith, lookup-sort_in k e m, le_bytes_refl k, bytes_beq_iff e.0 k, bytes_beq_iff f.0 k)

lookup-sort_by_key : (k : Bytes) (m : EnvVars) → lookup k (sort_by_key m) ≡ lookup k m
unfolding sort_by_key lookup
lookup-sort_by_key k [] = refl
lookup-sort_by_key k (e ∷ m) =
    lookup-sort_in k e (sort_by_key m)
    ∙ ap (λ o. if bytes_beq e.0 k then some e.1 else o) (lookup-sort_by_key k m)

-- No name stands twice.
abbrev pub IsDistinct : EnvVars → Type 0
IsDistinct [] = Unit
IsDistinct (e ∷ m) = All (λ (f : Bytes × Bytes). bytes_beq e.0 f.0 ≡ false) m × IsDistinct m

-- The value of the last variable with the name.
unfoldable pub last_of : Bytes → EnvVars → Option Bytes
last_of k [] = none
last_of k (e ∷ es) = or_else (last_of k es) (if bytes_beq e.0 k then some e.1 else none)

lookup_fresh :
    (k : Bytes) (m : EnvVars)
    → All (λ (f : Bytes × Bytes). bytes_beq k f.0 ≡ false) m
    → lookup k m ≡ none
unfolding lookup
lookup_fresh k [] h = refl
lookup_fresh k (f ∷ m) h =
    ground (arith, lookup_fresh k m h.1, h.0, bytes_beq_iff k f.0, bytes_beq_iff f.0 k)

remove_first-All :
    (P : Bytes × Bytes → Type 0) (k : Bytes) (m : EnvVars) → All P m → All P (remove_first k m)
unfolding remove_first
remove_first-All P k [] h = tt
remove_first-All P k (e ∷ m) h =
    if_intro (All P) (bytes_beq e.0 k) (λ _. h.1) (λ _. (h.0, remove_first-All P k m h.1))

remove_first-IsDistinct : (k : Bytes) (m : EnvVars) → IsDistinct m → IsDistinct (remove_first k m)
unfolding remove_first
remove_first-IsDistinct k [] h = tt
remove_first-IsDistinct k (e ∷ m) h =
    if_intro IsDistinct (bytes_beq e.0 k) (λ _. h.1)
      (λ _. (remove_first-All _ k m h.0, remove_first-IsDistinct k m h.1))

-- The name that was removed is gone.
remove_first-fresh :
    (k : Bytes) (m : EnvVars)
    → IsDistinct m
    → All (λ (f : Bytes × Bytes). bytes_beq f.0 k ≡ false) (remove_first k m)
unfolding remove_first
remove_first-fresh k [] h = tt
remove_first-fresh k (e ∷ m) h =
    if_intro (All (λ (f : Bytes × Bytes). bytes_beq f.0 k ≡ false)) (bytes_beq e.0 k)
      (λ same. flip e.0 k m ((bytes_beq_iff e.0 k).0 same) h.0)
      (λ other. (other, remove_first-fresh k m h.1))
  where
    flip :
        (a k : Bytes) (m : EnvVars)
        → a ≡ k
        → All (λ (f : Bytes × Bytes). bytes_beq a f.0 ≡ false) m
        → All (λ (f : Bytes × Bytes). bytes_beq f.0 k ≡ false) m
    flip a k [] e h = tt
    flip a k (f ∷ m) e h =
        (ground (arith, e, h.0, bytes_beq_iff a f.0, bytes_beq_iff f.0 k), flip a k m e h.1)

append-IsDistinct :
    (e : Bytes × Bytes) (m : EnvVars)
    → IsDistinct m
    → All (λ (f : Bytes × Bytes). bytes_beq f.0 e.0 ≡ false) m
    → IsDistinct (m ++ (e ∷ []))
append-IsDistinct e [] h k = (tt, tt)
append-IsDistinct e (f ∷ m) h k =
    (All-append _ m (e ∷ []) h.0 (k.0, tt), append-IsDistinct e m h.1 k.1)

lookup-append : (j : Bytes) (m n : EnvVars) → lookup j (m ++ n) ≡ or_else (lookup j m) (lookup j n)
unfolding lookup
lookup-append j [] n = refl
lookup-append j (e ∷ m) n = ground (arith, lookup-append j m n)

lookup-remove_first :
    (k j : Bytes) (m : EnvVars) → bytes_beq k j ≡ false → lookup j (remove_first k m) ≡ lookup j m
unfolding lookup remove_first
lookup-remove_first k j [] h = refl
lookup-remove_first k j (e ∷ m) h = ground (
  arith,
  lookup-remove_first k j m h,
  h,
  bytes_beq_iff e.0 k,
  bytes_beq_iff e.0 j,
  bytes_beq_iff k j,
)

-- One explicit variable has its value afterwards, and every other name keeps the one it had.
lookup_set :
    (k v j : Bytes) (m : EnvVars)
    → IsDistinct m
    → lookup j (remove_first k m ++ ((k, v) ∷ []))
      ≡ or_else (if bytes_beq k j then some v else none) (lookup j m)
unfolding lookup
lookup_set k v j m h = elim (Bool-cases (bytes_beq k j)) [
  | inl same ↦
      let gone : lookup k (remove_first k m) ≡ none =
        lookup_fresh k (remove_first k m) (turn k (remove_first k m) (remove_first-fresh k m h)) in
      let name : k ≡ j = (bytes_beq_iff k j).0 same in
      lookup-append j (remove_first k m) ((k, v) ∷ [])
      ∙ rw (same, ← name) (ap (λ o. or_else o (some v)) gone)
  | inr other ↦
      let nothing : lookup j ((k, v) ∷ []) ≡ none = rw (other, lookup) refl in
      rw
        (lookup-append j (remove_first k m) ((k, v) ∷ []), nothing, lookup-remove_first k j m other)
        (or_else_none (lookup j m))
]
  where
    or_else_none : (o : Option Bytes) → or_else o none ≡ o
    or_else_none none = refl
    or_else_none (some a) = refl

    turn :
        (k : Bytes) (m : EnvVars)
        → All (λ (f : Bytes × Bytes). bytes_beq f.0 k ≡ false) m
        → All (λ (f : Bytes × Bytes). bytes_beq k f.0 ≡ false) m
    turn k [] h = tt
    turn k (f ∷ m) h = (ground (arith, h.0, bytes_beq_iff k f.0, bytes_beq_iff f.0 k), turn k m h.1)

lookup-set_all :
    (j : Bytes) (es m : EnvVars)
    → IsDistinct m
    → lookup j (set_all es m) ≡ or_else (last_of j es) (lookup j m)
unfolding set_all last_of
lookup-set_all j [] m h = refl
lookup-set_all j (e ∷ es) m h =
    let kept =
      append-IsDistinct e (remove_first e.0 m) (remove_first-IsDistinct e.0 m h)
        (remove_first-fresh e.0 m h) in
    lookup-set_all j es (remove_first e.0 m ++ (e ∷ [])) kept
    ∙ ap (or_else (last_of j es)) (lookup_set e.0 e.1 j m h)
    ∙ sym (or_else_assoc (last_of j es) (if bytes_beq e.0 j then some e.1 else none) (lookup j m))
  where
    or_else_assoc : (a b c : Option Bytes) → or_else (or_else a b) c ≡ or_else a (or_else b c)
    or_else_assoc none b c = refl
    or_else_assoc (some x) b c = refl

-- Where the file names no variable twice, a run gets for every name the value of the last
-- explicit variable with that name, or else the file's, and the variables stand in the order of
-- their names.
pub load_environment_vars-lookup :
    (exists : Bytes → Bool) (from_path_iter : Bytes → Option (List (Option (Bytes × Bytes))))
    (opts : CliCommandOpts) (vars : EnvVars) (j : Bytes)
    → file_vars exists from_path_iter opts.env_file ≡ done vars
    → IsDistinct vars
    → (r : EnvVars) × (load_environment_vars exists from_path_iter opts ≡ done r)
      × IsSorted r
      × (lookup j r ≡ or_else (last_of j opts.envs) (lookup j vars))
unfolding load_environment_vars
load_environment_vars-lookup exists from_path_iter opts vars j h distinct =
    let merged = set_all opts.envs vars in
    (
      sort_by_key merged,
      rw (h, load_environment_vars) refl,
      sort_by_key-IsSorted merged,
      lookup-sort_by_key j merged ∙ lookup-set_all j opts.envs vars distinct,
    )
