-- ===== src/Modules/Linking/Order.antt =====
-- In which order `link_modules` takes the modules of a configuration.
use mathlib.Core.Path.{fun_ext}
use bls_runtime.Prelude.{
  ◌≡◌, refl, ap, ◌∙◌, true, Option, none, some, List, [], ◌∷◌, ◌++◌, Bytes, All, Option-cases, ◌⊎◌,
  inl, inr,
}
use bls_runtime.Config.{BlocklessModule, ModuleType, library, entry_module_type, is_after}
use bls_runtime.Modules.{and_then}
use bls_runtime.Modules.Linking.{
  HostFunc, mcall, register, sort_in, sort_by_type, link_loop, link_all, link_modules,
}

type-cases : (t : ModuleType) → (t ≡ library) ⊎ (t ≡ entry_module_type)
type-cases library = inl refl
type-cases entry_module_type = inr refl

abbrev if_library : {A : Type 0} → ModuleType → A → A → A
if_library library a b = a
if_library entry_module_type a b = b

-- The modules of one type, in the order of the configuration.
unfoldable pub libraries : List BlocklessModule → List BlocklessModule
libraries [] = []
libraries (m ∷ ms) = if_library m.module_type (m ∷ libraries ms) (libraries ms)

unfoldable pub entries : List BlocklessModule → List BlocklessModule
entries [] = []
entries (m ∷ ms) = if_library m.module_type (entries ms) (m ∷ entries ms)

-- How both lists go on, for each type of the first module.
Splits : BlocklessModule → List BlocklessModule → Type 0
Splits m ms =
    ((m.module_type ≡ library)
      × (libraries (m ∷ ms) ≡ m ∷ libraries ms)
      × (entries (m ∷ ms) ≡ entries ms))
    ⊎ ((m.module_type ≡ entry_module_type)
        × (libraries (m ∷ ms) ≡ libraries ms)
        × (entries (m ∷ ms) ≡ m ∷ entries ms))

split : (m : BlocklessModule) (ms : List BlocklessModule) → Splits m ms
unfolding libraries entries Splits
split m ms = elim (type-cases m.module_type) [
  | inl e ↦ inl (e, choose _ _ e, choose _ _ e)
  | inr e ↦ inr (e, choose _ _ e, choose _ _ e)
]
  where
    choose : {A : Type 0} (a b : A) {t u : ModuleType} → t ≡ u → if_library t a b ≡ if_library u a b
    choose a b e = rw e refl

abbrev AreLibraries : List BlocklessModule → Type 0
AreLibraries = All (λ (m : BlocklessModule). m.module_type ≡ library)

abbrev AreEntries : List BlocklessModule → Type 0
AreEntries = All (λ (m : BlocklessModule). m.module_type ≡ entry_module_type)

split_kinds : (ms : List BlocklessModule) → AreLibraries (libraries ms) × AreEntries (entries ms)
unfolding libraries entries Splits
split_kinds [] = (tt, tt)
split_kinds (m ∷ ms) =
    let (a, b) = split_kinds ms in
    elim (split m ms) [
      | inl (e, l, k) ↦ (rw l (e, a), rw k b)
      | inr (e, l, k) ↦ (rw l a, rw k (e, b))
    ]

-- A library stays in front of everything.
sort_in-library :
    (m : BlocklessModule) (xs : List BlocklessModule)
    → m.module_type ≡ library
    → sort_in m xs ≡ m ∷ xs
unfolding sort_in is_after
sort_in-library m [] h = refl
sort_in-library m (x ∷ xs) h = elim (type-cases x.module_type) [
  | inl e ↦ rw (h, e, sort_in, is_after) refl
  | inr e ↦ rw (h, e, sort_in, is_after) refl
]

-- An entry moves behind the libraries and stays in front of the entries.
sort_in-entry :
    (m : BlocklessModule) (ls es : List BlocklessModule)
    → m.module_type ≡ entry_module_type
    → AreLibraries ls
    → AreEntries es
    → sort_in m (ls ++ es) ≡ ls ++ (m ∷ es)
unfolding sort_in is_after
sort_in-entry m [] [] h a b = refl
sort_in-entry m [] (x ∷ es) h a b = rw (h, b.0, sort_in, is_after) refl
sort_in-entry m (x ∷ ls) es h a b =
    let behind : is_after m.module_type x.module_type ≡ true = rw (h, a.0) refl in
    rw (behind, sort_in) (ap (◌∷◌ x) (sort_in-entry m ls es h a.1 b))

sort_by_type-split : (ms : List BlocklessModule) → sort_by_type ms ≡ libraries ms ++ entries ms
unfolding sort_by_type libraries entries Splits
sort_by_type-split [] = refl
sort_by_type-split (m ∷ ms) =
    let (a, b) = split_kinds ms in
    let sorted = ap (sort_in m) (sort_by_type-split ms) in
    elim (split m ms) [
      | inl (e, l, k) ↦ rw (l, k) (sorted ∙ sort_in-library m (libraries ms ++ entries ms) e)
      | inr (e, l, k) ↦ rw (l, k) (sorted ∙ sort_in-entry m (libraries ms) (entries ms) e a b)
    ]

module _ {Module S : Type 0} (from_file : Bytes → Option Module)
    (instance_module : Bytes → Module → S → Option S) where
  -- All libraries instantiated, one after the other.
  unfoldable pub instantiate_all : List BlocklessModule → S → Option S
  instantiate_all [] s = some s
  instantiate_all (m ∷ ms) s =
      and_then (from_file m.file)
        λ loaded. and_then (instance_module m.name loaded s) λ s'. instantiate_all ms s'

  -- All files loaded, for the last of them.
  unfoldable pub load_last : List BlocklessModule → Option Module → Option (Option Module)
  load_last [] entry = some entry
  load_last (m ∷ ms) entry = and_then (from_file m.file) λ loaded. load_last ms (some loaded)

  link_loop-libraries :
      (ls es : List BlocklessModule) (s : S)
      → AreLibraries ls
      → link_loop from_file instance_module (ls ++ es) none s
        ≡ and_then (instantiate_all ls s) λ s'. link_loop from_file instance_module es none s'
  unfolding link_loop instantiate_all
  link_loop-libraries [] es s h = refl
  link_loop-libraries (m ∷ ls) es s h = elim (Option-cases (from_file m.file)) [
    | inl missing ↦ rw (missing, link_loop, instantiate_all) refl
    | inr (loaded, found) ↦ elim (Option-cases (instance_module m.name loaded s)) [
      | inl failed ↦ rw (found, h.0, failed, link_loop, instantiate_all) refl
      | inr (s', done) ↦
          rw (found, h.0, done, link_loop, instantiate_all) (link_loop-libraries ls es s' h.1)
    ]
  ]

  link_loop-entries :
      (es : List BlocklessModule) (entry : Option Module) (s : S)
      → AreEntries es
      → link_loop from_file instance_module es entry s
        ≡ and_then (load_last es entry) λ e. some (e, s)
  unfolding link_loop load_last
  link_loop-entries [] entry s h = refl
  link_loop-entries (m ∷ es) entry s h = elim (Option-cases (from_file m.file)) [
    | inl missing ↦ rw (missing, link_loop, load_last) refl
    | inr (loaded, found) ↦
        rw (found, h.0, link_loop, load_last) (link_loop-entries es (some loaded) s h.1)
  ]

  abbrev finished : Option Module × S → Option (Module × S)
  finished r = and_then r.0 λ entry. some (entry, r.1)

  -- The loop over the sorted modules, and the entry that it leaves.
  link_sorted :
      (ms : List BlocklessModule) (s : S)
      → and_then (link_loop from_file instance_module (sort_by_type ms) none s) finished
        ≡ and_then (instantiate_all (libraries ms) s) λ s'.
          and_then (load_last (entries ms) none) λ found. and_then found λ entry. some (entry, s')
  link_sorted ms s =
      let (a, b) = split_kinds ms in
      ap (λ r. and_then r finished)
        (rw (sort_by_type-split ms) (link_loop-libraries (libraries ms) (entries ms) s a)
          ∙ ap (and_then (instantiate_all (libraries ms) s))
              (fun_ext λ s'. link_loop-entries (entries ms) none s' b))
      ∙ flatten (instantiate_all (libraries ms) s) (load_last (entries ms) none)
    where
      flatten :
          (o : Option S) (p : Option (Option Module))
          → and_then (and_then o λ x. and_then p λ e. some (e, x)) finished
            ≡ and_then o λ s'. and_then p λ found. and_then found λ entry. some (entry, s')
      flatten none p = refl
      flatten (some x) none = refl
      flatten (some x) (some e) = refl

  -- Where the store has its context with a configuration: the two host functions come first. Then
  -- the libraries of the configuration are instantiated in its order, wherever the entry stands;
  -- then every entry is loaded and the last of them is the result. Without an entry, or at the
  -- first function or module that fails, there is no result.
  pub link_modules-order :
      (func_wrap : HostFunc → S → Option S) (ms : List BlocklessModule) (s : S)
      → link_modules from_file instance_module func_wrap (some (some ms)) s
        ≡ and_then (func_wrap mcall s) λ s1. and_then (func_wrap register s1) λ s2.
          and_then (instantiate_all (libraries ms) s2) λ s'.
            and_then (load_last (entries ms) none) λ found. and_then found λ entry. some (entry, s')
  unfolding link_modules link_all
  link_modules-order func_wrap ms s =
      ap (and_then (func_wrap mcall s))
        (fun_ext λ s1. ap (and_then (func_wrap register s1)) (fun_ext λ s2. link_sorted ms s2))
