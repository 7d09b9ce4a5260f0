-- ===== src/Runner/Run/Permitted.antt =====
-- Nothing of the main module runs before its permissions are set.
use bls_runtime.Prelude.{ℕ, ◌≡◌, refl, sym, Bool, true, Option, none, some, List, [], ◌∷◌, Bytes}
use bls_runtime.Config.{
  BlocklessConfig, DriverConfig, PermissionsConfig, version0, version1, Version,
}
use bls_runtime.Runner.Run
use mathlib.Core.Path.{subst}
use bls_runtime.Runner.Run.Guarded.{
  Holds, Ready, Prepared, plain_step, any_step, pure_holds, when_holds, bind_before, bind_until,
  prepares, bind_behind, bind_holds, linker_step, setup_step, IsGuarded, Among,
}

module _ (world : Run.World) (c : BlocklessConfig) where
  abbrev pub perms : PermissionsConfig
  perms = c.permissions_config

  -- The target that a configuration has: in the old version what its entry file is, in the new one
  -- a core module.
  abbrev pub target_for : Version → Bytes → Run.Target
  target_for version0 entry = world.target_of entry
  target_for version1 entry = Run.core

  abbrev pub target : Run.Target
  target = target_for c.version c.entry

  prepare_linker_holds :
      (t : Run.Target)
      → Holds perms t (IsGuarded perms t) (Run.prepare_linker world c t) (Prepared perms t)
  unfolding Holds Run.prepare_linker Run.must Run.step
  prepare_linker_holds Run.core =
      bind_holds perms Run.core (IsGuarded perms Run.core)
        (λ a log. IsGuarded perms Run.core log × Among Run.preview1_linker_setup log)
        (Prepared perms Run.core) (Run.must world Run.preview1_linker_setup) _
        (linker_step perms Run.core Run.preview1_linker_setup _ refl)
        (λ a.
          setup_step perms Run.core Run.preview1_linker_setup (Run.set_permisions perms) _
            (λ log k. (refl, k)) refl)
  prepare_linker_holds Run.component =
      bind_holds perms Run.component (IsGuarded perms Run.component)
        (λ a log. IsGuarded perms Run.component log × Among Run.component_linker_setup log)
        (Prepared perms Run.component) (Run.step world Run.component_linker_setup) _
        (linker_step perms Run.component Run.component_linker_setup _ refl)
        (λ a.
          setup_step perms Run.component Run.component_linker_setup Run.preview2_setup _
            (λ log k. (refl, k)) refl)

  module _ (t : Run.Target) where
    load_drivers_holds :
        (cfs : List DriverConfig)
        → Holds perms t (IsGuarded perms t) (Run.load_drivers world cfs) (Ready perms t)
    unfolding Holds Run.load_drivers Run.must
    load_drivers_holds [] = pure_holds perms t (IsGuarded perms t) true (λ log h. h)
    load_drivers_holds (cfg ∷ cfs) =
        bind_before perms t (Run.must world (Run.load_driver cfg)) (λ _. Run.load_drivers world cfs)
          (plain_step perms t (Run.load_driver cfg) _ refl) (λ a. load_drivers_holds cfs)

    fuel_step_holds :
        (f : Option ℕ) → Holds perms t (IsGuarded perms t) (Run.fuel_step world f) (Ready perms t)
    unfolding Holds Run.must
    fuel_step_holds none = pure_holds perms t (IsGuarded perms t) true (λ log h. h)
    fuel_step_holds (some f) = plain_step perms t (Run.set_fuel f) _ refl

    support_threads_holds :
        (x : Run.Target)
        → Holds perms t (Prepared perms t tt) (Run.support_threads world x) (Prepared perms t)
    unfolding Holds Run.support_threads Run.must
    support_threads_holds Run.core = any_step perms t Run.setup_threads _
    support_threads_holds Run.component = λ log h. (h.0, λ a e. absurd (cc))

    -- The target of a core module or a component, as the linking gives it.
    Linked : Run.Target → Run.Target × Bytes → Run.Log → Type 0
    Linked x l log = IsGuarded perms t log × (l.0 ≡ x)

    pure-Linked :
        (l : Run.Target × Bytes) → Holds perms t (IsGuarded perms t) (Run.pure l) (Linked l.0)
    unfolding Holds Linked
    pure-Linked l log h = (h, λ b e. (h, cc))

    setup_target_holds :
        (x : Run.Target) → Holds perms t (IsGuarded perms t) (Run.setup_target world x) (Linked x)
    unfolding Holds Run.setup_target Run.step
    setup_target_holds Run.core =
        bind_holds perms t (IsGuarded perms t) (Ready perms t) (Linked Run.core)
          (Run.step world Run.preview1_setup) _ (plain_step perms t Run.preview1_setup _ refl)
          (λ a. pure-Linked _)
    setup_target_holds Run.component = pure-Linked _

    link_version_holds :
        (v : Version) (entry : Bytes)
        → Holds perms t
            (IsGuarded perms t)
            (Run.link_version world v entry)
            (Linked (target_for v entry))
    unfolding Holds Run.link_version Run.step
    link_version_holds version0 entry =
        bind_holds perms t (IsGuarded perms t) (Ready perms t) (Linked (world.target_of entry))
          (Run.step world (Run.load_module entry)) _
          (plain_step perms t (Run.load_module entry) _ refl)
          (λ a. setup_target_holds (world.target_of entry))
    link_version_holds version1 entry =
        bind_holds perms t (IsGuarded perms t) (Ready perms t) (Linked Run.core)
          (Run.step world Run.preview1_setup) _ (plain_step perms t Run.preview1_setup _ refl)
          (λ a.
            bind_holds perms t (IsGuarded perms t) (Ready perms t) (Linked Run.core)
              (Run.step world Run.link_modules) _ (plain_step perms t Run.link_modules _ refl)
              (λ b. pure-Linked _))

    call_func_holds :
        (f : Option Bytes)
        → Holds perms t (Prepared perms t tt) (Run.call_func world f) (Prepared perms t)
    unfolding Holds Run.call_func Run.step
    call_func_holds none = λ log h. (h.0, λ a e. absurd (cc))
    call_func_holds (some name) = any_step perms t (Run.call name) _

    load_main_module_holds :
        (x : Run.Target) (entry : Bytes)
        → Holds perms t
            (Prepared perms t tt)
            (Run.load_main_module world c x entry)
            (Prepared perms t)
    unfolding Holds Run.load_main_module Run.step Run.call_component
    load_main_module_holds Run.core entry =
        bind_behind perms t _ _ (maybe c.unknown_imports_trap Run.define_unknown_imports) (λ a.
          bind_behind perms t (Run.step world Run.instantiate) _
            (any_step perms t Run.instantiate _)
            (λ b.
              bind_behind perms t _ _ (maybe world.has_initialize Run.initialize)
                (λ d. call_func_holds (Run.find_func world c entry))))
      where
        maybe :
            (b : Bool) (s : Run.Step)
            → Holds perms t (Prepared perms t tt) (Run.when b (Run.step world s)) (Prepared perms t)
        maybe b s =
            when_holds perms t (Prepared perms t tt) b (Run.step world s) (λ log h. h.0)
              (any_step perms t s _)
    load_main_module_holds Run.component entry =
        bind_behind perms t _ _
          (when_holds perms t (Prepared perms t tt) c.unknown_imports_trap
            (Run.step world Run.define_unknown_imports) (λ log h. h.0)
            (any_step perms t Run.define_unknown_imports _))
          (λ a.
            bind_behind perms t (Run.step world Run.instantiate) _
              (any_step perms t Run.instantiate _) (λ b. any_step perms t Run.call_run _))

  run_holds : Holds perms target (IsGuarded perms target) (Run.run world c) (Prepared perms target)
  unfolding Holds Linked Run.run Run.must Run.step Run.module_linker
  run_holds =
      bind_until perms target (Run.must world (Run.init_built_in_drivers c.drivers_root_path)) _
        (plain_step perms target (Run.init_built_in_drivers c.drivers_root_path) _ refl)
        λ a.
          bind_until perms target (Run.step world Run.new_engine) _
            (plain_step perms target Run.new_engine _ refl)
            λ b.
              bind_until perms target (Run.load_drivers world c.drivers) _
                (load_drivers_holds target c.drivers)
                λ d.
                  bind_until perms target (Run.fuel_step world c.limited_fuel) _
                    (fuel_step_holds target c.limited_fuel) λ e. linked_holds
    where
      prepared :
          (x : Run.Target)
          → x ≡ target
          → Holds perms target
              (IsGuarded perms target)
              (Run.prepare_linker world c x)
              (Prepared perms target)
      prepared x e =
          subst
            (λ y.
              Holds perms target (IsGuarded perms target) (Run.prepare_linker world c y)
                (Prepared perms target))
            (sym e) (prepare_linker_holds target)

      behind_linker :
          (l : Run.Target × Bytes)
          → l.0 ≡ target
          → Holds perms target
              (IsGuarded perms target)
              (λ log. Run.then_run (Run.when c.nn (Run.step world Run.nn_setup) log) λ _ log.
                Run.then_run (Run.prepare_linker world c l.0 log) λ _ log.
                  Run.then_run
                    (Run.when c.feature_thread (Run.support_threads world l.0) log)
                    λ _. Run.load_main_module world c l.0 l.1)
              (Prepared perms target)
      behind_linker l e =
          bind_until perms target _ _
            (when_holds perms target (IsGuarded perms target) c.nn (Run.step world Run.nn_setup)
              (λ log h. h) (plain_step perms target Run.nn_setup _ refl))
            λ a. prepares perms target (Run.prepare_linker world c l.0) _ (prepared l.0 e) λ b.
              bind_behind perms target _ _
                (when_holds perms target (Prepared perms target tt) c.feature_thread
                  (Run.support_threads world l.0) (λ log h. h.0) (support_threads_holds target l.0))
                λ d. load_main_module_holds target l.0 l.1

      linked_holds :
          Holds perms target
            (IsGuarded perms target)
            (λ log. Run.then_run (Run.module_linker world c log) λ l log.
              Run.then_run (Run.when c.nn (Run.step world Run.nn_setup) log) λ _ log.
                Run.then_run (Run.prepare_linker world c l.0 log) λ _ log.
                  Run.then_run
                    (Run.when c.feature_thread (Run.support_threads world l.0) log)
                    λ _. Run.load_main_module world c l.0 l.1)
            (Prepared perms target)
      linked_holds =
          bind_holds perms target (IsGuarded perms target) (Linked target target)
            (Prepared perms target) (Run.module_linker world c) _
            (link_version_holds target c.version c.entry) (λ l log (h, e). behind_linker l e log h)

  -- In every run, whatever steps fail, each step that runs code of the main module stands behind
  -- the preparation for its target, which is a core module in the new version and what the entry
  -- file is in the old one: for a core module the setup of its linker and then the permissions of
  -- the configuration, for a component the setup of its linker and then its context.
  pub run-IsGuarded : IsGuarded perms target (Run.run world c []).0
  unfolding Holds
  run-IsGuarded = (run_holds [] tt).0
