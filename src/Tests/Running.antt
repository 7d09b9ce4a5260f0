-- ===== src/Tests/Running.antt =====
-- The steps of a run of one file, and of a configuration with modules.
use bls_runtime.Prelude.{◌≡◌, refl, Bool, true, false, none, [], ◌∷◌, codes}
use bls_runtime.Config
use bls_runtime.Config.{BlocklessConfig}
use bls_runtime.Runner.Run
use bls_runtime.Runner.Run.Guarded.{IsGuarded}
use bls_runtime.Runner.Run.Permitted.{run-IsGuarded}

abbrev never : Run.Step → Bool
never s = false

-- A world in which no step fails, every file is a core module, and every function is there.
abbrev world : Run.World
world = record {
  fails = never;
  target_of = λ file. Run.core;
  has_initialize = true;
  has_func = λ name. true;
  wasm_result = true;
  is_trap = false;
}

abbrev config : BlocklessConfig
config = Config.new (codes "app.wasm")

abbrev log : Run.Log
log = (Run.run world config []).0

-- The newest step stands first.
steps :
    log
    ≡ Run.call (codes "_start")
      ∷ Run.initialize
      ∷ Run.instantiate
      ∷ Run.set_permisions Config.default_permissions
      ∷ Run.preview1_linker_setup
      ∷ Run.preview1_setup
      ∷ Run.load_module (codes "app.wasm")
      ∷ Run.new_engine
      ∷ Run.init_built_in_drivers none
      ∷ []
unfolding Run.run Run.must Run.step Run.load_drivers Run.module_linker Run.link_version
    Run.setup_target Run.prepare_linker Run.load_main_module Run.find_func Run.call_func Config.new
steps = refl

run-IsGuarded_example : IsGuarded config.permissions_config Run.core log
unfolding Config.new
run-IsGuarded_example = run-IsGuarded world config
