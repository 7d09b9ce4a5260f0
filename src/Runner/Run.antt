-- ===== src/Runner/Run.antt =====
-- blockless/src/lib.rs, `BlocklessRunner::run`: the steps that a run takes, in order. What a step
-- does belongs to wasmtime and to the host; the record `World` says which steps fail and what a
-- file and an instance hold. The log has the newest step first.
pub mod Guarded
pub mod Permitted
use bls_runtime.Prelude.{
  ℕ, Bool, true, false, ◌||◌, Option, none, some, List, [], ◌∷◌, Bytes, codes, if◌then◌else◌,
}
use bls_runtime.Config.{
  BlocklessConfig, BlocklessModule, DriverConfig, PermissionsConfig, Version, version0, version1,
}
use bls_runtime.Cli.{Outcome, done, refused, panics, exits}

pub data Target : Type 0 where
  core component : Target

pub data Step : Type 0 where
  init_built_in_drivers : Option Bytes → Step
  new_engine : Step
  load_driver : DriverConfig → Step
  set_fuel : ℕ → Step
  load_module : Bytes → Step
  preview1_setup : Step
  link_modules : Step
  nn_setup : Step
  preview1_linker_setup : Step
  set_permisions : PermissionsConfig → Step
  component_linker_setup : Step
  preview2_setup : Step
  setup_threads : Step
  define_unknown_imports : Step
  instantiate : Step
  initialize : Step
  call : Bytes → Step
  call_run : Step

pub record World : Type 0 where
  pub fails : Step → Bool
  pub target_of : Bytes → Target
  pub has_initialize : Bool
  pub has_func : Bytes → Bool
  pub wasm_result : Bool
  pub is_trap : Bool

abbrev pub Log : Type 0
Log = List Step

-- A part of a run takes the log on and ends.
abbrev pub Run {ℓ} : Type ℓ → Type ℓ
Run A = Log → Log × Outcome A

abbrev pub then_run {ℓ κ} :
    {A : Type ℓ} {B : Type κ} → Log × Outcome A → (A → Run B) → Log × Outcome B
then_run (log, done a) f = f a log
then_run (log, refused) f = (log, refused)
then_run (log, panics) f = (log, panics)
then_run (log, exits) f = (log, exits)

infixl 5 ◌>>=◌
abbrev pub ◌>>=◌ {ℓ κ} : {A : Type ℓ} {B : Type κ} → Run A → (A → Run B) → Run B
(m >>= f) log = then_run (m log) f

abbrev pub pure {ℓ} : {A : Type ℓ} → A → Run A
pure a log = (log, done a)

abbrev pub ends {ℓ} : {A : Type ℓ} → Outcome A → Run A
ends o log = (log, o)

abbrev pub when : Bool → Run Bool → Run Bool
when true m = m
when false m = pure true

module _ (world : World) where
  -- A step whose error is passed on, and one that is unwrapped.
  unfoldable pub step : Step → Run Bool
  step s log = (s ∷ log, if world.fails s then refused else done true)

  unfoldable pub must : Step → Run Bool
  must s log = (s ∷ log, if world.fails s then panics else done true)

  unfoldable pub load_drivers : List DriverConfig → Run Bool
  unfolding must
  load_drivers [] = pure true
  load_drivers (cfg ∷ cfs) = do _ ← must (load_driver cfg); load_drivers cfs

  abbrev entry_or_start : Bytes → Bytes
  entry_or_start [] = codes "_start"
  entry_or_start (b ∷ entry) = b ∷ entry

  -- The context of a core module; a component gets its own later.
  unfoldable pub setup_target : Target → Run (Target × Bytes)
  unfolding step
  setup_target core = step preview1_setup >>= λ _. pure (core, codes "_start")
  setup_target component = pure (component, codes "_start")

  -- The old configuration runs the file that the entry names.
  unfoldable pub link_version : Version → Bytes → Run (Target × Bytes)
  unfolding step setup_target
  link_version version0 entry =
      step (load_module entry) >>= λ _. setup_target (world.target_of entry)
  link_version version1 entry = do
    _ ← step preview1_setup
    _ ← step link_modules
    pure (core, entry_or_start entry)

  unfoldable pub module_linker : BlocklessConfig → Run (Target × Bytes)
  unfolding link_version
  module_linker c = link_version c.version c.entry

  abbrev first_func : List Bytes → Option Bytes
  first_func [] = none
  first_func (name ∷ names) = if world.has_func name then some name else first_func names

  -- The function that is run: the old configuration tries others behind the entry.
  unfoldable pub find_func : BlocklessConfig → Bytes → Option Bytes
  find_func c entry = elim c.version [
    | version0 ↦ first_func (entry ∷ [] ∷ codes "_start" ∷ [])
    | version1 ↦ first_func (entry ∷ [])
  ]

  unfoldable pub call_func : Option Bytes → Run Bool
  unfolding step
  call_func none = ends refused
  call_func (some name) = step (call name)

  -- A core dump reads the first module of the configuration.
  unfoldable pub handle_core_dump : BlocklessConfig → Outcome Bool
  handle_core_dump c = elim c.coredump [
    | none ↦ refused
    | some path ↦
        if world.is_trap then elim c.modules [ [] ↦ panics | m ∷ ms ↦ refused ] else refused
  ]

  unfoldable pub call_component : BlocklessConfig → Run Bool
  unfolding handle_core_dump
  call_component c log = (
    call_run ∷ log,
    if world.fails call_run
        then handle_core_dump c
        else if world.wasm_result
        then done true
        else refused,
  )

  unfoldable pub load_main_module : BlocklessConfig → Target → Bytes → Run Bool
  unfolding step find_func call_func call_component
  load_main_module c core entry = do
    _ ← when c.unknown_imports_trap (step define_unknown_imports)
    _ ← step instantiate
    _ ← when world.has_initialize (step initialize)
    call_func (find_func c entry)
  load_main_module c component entry = do
    _ ← when c.unknown_imports_trap (step define_unknown_imports)
    _ ← step instantiate
    call_component c

  unfoldable pub prepare_linker : BlocklessConfig → Target → Run Bool
  unfolding step must
  prepare_linker c core =
      must preview1_linker_setup >>= λ _. must (set_permisions c.permissions_config)
  prepare_linker c component = step component_linker_setup >>= λ _. step preview2_setup

  unfoldable pub support_threads : Target → Run Bool
  unfolding must
  support_threads core = must setup_threads
  support_threads component = ends panics

  abbrev pub fuel_step : Option ℕ → Run Bool
  fuel_step none = pure true
  fuel_step (some f) = must (set_fuel f)

  -- A run up to the result of its main module.
  unfoldable pub run : BlocklessConfig → Run Bool
  unfolding step must load_drivers module_linker prepare_linker support_threads load_main_module
  run c = do
    _ ← must (init_built_in_drivers c.drivers_root_path)
    _ ← step new_engine
    _ ← load_drivers c.drivers
    _ ← fuel_step c.limited_fuel
    linked ← module_linker c
    _ ← when c.nn (step nn_setup)
    _ ← prepare_linker c linked.0
    _ ← when c.feature_thread (support_threads linked.0)
    load_main_module c linked.0 linked.1
