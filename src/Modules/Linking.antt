-- ===== src/Modules/Linking.antt =====
-- `ModuleLinker::link_modules`: the libraries are instantiated, and the entry module is loaded.
-- Its linker, loading and instantiating belong to wasmtime and are parameters; an error ends it.
pub mod Order
use bls_runtime.Prelude.{
  ◌≡◌, refl, ap, ◌∙◌, Bool, true, false, Option, none, some, List, [], ◌∷◌, ◌++◌, Bytes,
  if◌then◌else◌, Bool-cases, Option-cases, inl, inr,
}
use bls_runtime.Config.{BlocklessModule, ModuleType, library, entry_module_type, is_after}
use bls_runtime.Modules.{and_then}

-- The stable sort of `sort_by`: a module moves behind those that it stands strictly behind.
unfoldable pub sort_in : BlocklessModule → List BlocklessModule → List BlocklessModule
unfolding is_after
sort_in m [] = m ∷ []
sort_in m (x ∷ xs) =
    let rest = sort_in m xs in if is_after m.module_type x.module_type then x ∷ rest else m ∷ x ∷ xs

unfoldable pub sort_by_type : List BlocklessModule → List BlocklessModule
unfolding sort_in
sort_by_type [] = []
sort_by_type (m ∷ ms) = sort_in m (sort_by_type ms)

-- The functions of the host that the linker takes.
pub data HostFunc : Type 0 where
  mcall register : HostFunc

module _ {Module S : Type 0} (from_file : Bytes → Option Module)
    (instance_module : Bytes → Module → S → Option S) where
  -- The loop over the sorted modules, with the entry that was loaded last.
  unfoldable pub link_loop : List BlocklessModule → Option Module → S → Option (Option Module × S)
  link_loop [] entry s = some (entry, s)
  link_loop (m ∷ ms) entry s = and_then (from_file m.file) λ loaded. elim m.module_type [
    | entry_module_type ↦ link_loop ms (some loaded) s
    | library ↦ and_then (instance_module m.name loaded s) λ s'. link_loop ms entry s'
  ]

  module _ (func_wrap : HostFunc → S → Option S) where
    -- Behind the configuration of the context: the host functions, the modules, and the entry.
    unfoldable pub link_all : List BlocklessModule → S → Option (Module × S)
    unfolding link_loop sort_by_type
    link_all ms s = and_then (func_wrap mcall s) λ s1. and_then (func_wrap register s1) λ s2.
        and_then (link_loop (sort_by_type ms) none s2) λ r. and_then r.0 λ entry. some (entry, r.1)

    -- `preview1_ctx` is the context of the store, with its configuration, where it has them.
    unfoldable pub link_modules : Option (Option (List BlocklessModule)) → S → Option (Module × S)
    unfolding link_all
    link_modules preview1_ctx s = and_then preview1_ctx λ cfg. and_then cfg λ ms. link_all ms s
