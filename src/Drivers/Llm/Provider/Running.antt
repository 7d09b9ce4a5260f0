-- ===== src/Drivers/Llm/Provider/Running.antt =====
-- What an initialized provider runs.
use mathlib.Core.Path.{subst}
use bls_runtime.Prelude.{◌≡◌, refl, sym, ◌∙◌, ap, Option, none, some, Bytes, inl, inr, ◌⊎◌}
use bls_runtime.Prelude.Result.{Result, ok, err}
use bls_runtime.Drivers.Llm.Models.{Urls}
use bls_runtime.Drivers.Llm.Download.{
  ProviderError, llama_file_server_error, Files, bytes_in, download_model,
}
use bls_runtime.Drivers.Llm.Download.Resumed.{IsResumed, IsStart, Serves, download_model-IsResumed}
use bls_runtime.Drivers.Llm.Provider.{
  ErrorKind, ProviderConfig, System, LlamafileProvider, State, model_file_url, get_model_path,
  spawned, start_server, after_download, provide, initialize,
}

module _ (urls : Urls) (system : System urls) where
  -- What an initialize leaves: no panic, a partial file to go on from, a model that is the file or
  -- as it was, and after an answer without error the file in place with a process started from it.
  abbrev pub IsRunning :
      Bytes
      → Bytes
      → ProviderConfig
      → Option Bytes
      → Option (Result ProviderError (Unit {0}) × State urls system)
      → Type 0
  IsRunning file path config old none = ⊥
  IsRunning file path config old (some (r, (p, f))) =
      IsStart (bytes_in f.part) file
      × (p.config ≡ config)
      × ((f.model ≡ some file) ⊎ (f.model ≡ old))
      × (r ≡ ok tt
          → (f.model ≡ some file)
            × (process : system.Process) × (system.spawn path f ≡ ok process)
            × (p.process ≡ some process))

  start_server_lem :
      {path : Bytes} (p : LlamafileProvider urls system) (f : Files)
      → get_model_path urls system p.model ≡ some path
      → start_server urls system (p, f) ≡ some (spawned urls system (system.spawn path f) (p, f))
  unfolding start_server
  start_server_lem p f at = rw (at, start_server) refl

  initialize_lem :
      {path : Bytes} (config : ProviderConfig) (p : LlamafileProvider urls system) (f : Files)
      → get_model_path urls system p.model ≡ some path
      → initialize urls system config (p, f) ≡ provide urls system (record p { config = config }) f
  unfolding initialize
  initialize_lem config p f at = rw (at, initialize) refl

  -- Where there is a model, it is started; where there is none, downloaded.
  provide_there :
      {old : Bytes} (p : LlamafileProvider urls system) (f : Files)
      → f.model ≡ some old
      → provide urls system p f ≡ start_server urls system (p, f)
  unfolding provide
  provide_there p f there = rw there refl

  provide_missing :
      (u : urls.Url) (p : LlamafileProvider urls system) (f : Files)
      → f.model ≡ none
      → model_file_url urls p.model ≡ some u
      → provide urls system p f
        ≡ after_download urls system p
            (download_model system.disk (system.server u) f).0
            (download_model system.disk (system.server u) f).1
  unfolding provide
  provide_missing u p f missing found = simp (missing, found, provide)

  module _ (file path : Bytes) (config : ProviderConfig) (old : Option Bytes) where
    start_server-IsRunning :
        (p : LlamafileProvider urls system) (f : Files)
        → get_model_path urls system p.model ≡ some path
        → IsStart (bytes_in f.part) file
        → p.config ≡ config
        → f.model ≡ some file
        → IsRunning file path config old (start_server urls system (p, f))
    unfolding spawned
    start_server-IsRunning p f at start same there =
        subst (IsRunning file path config old) (sym (start_server_lem p f at))
          (from_spawn (system.spawn path f) refl)
      where
        from_spawn :
            (s : Result ErrorKind system.Process)
            → system.spawn path f ≡ s
            → IsRunning file path config old (some (spawned urls system s (p, f)))
        from_spawn (ok process) e = (start, same, inl there, (λ h. (there, process, e, refl)))
        from_spawn (err kind) e = (start, same, inl there, (λ h. absurd (cc)))

    after_download-IsRunning :
        (p : LlamafileProvider urls system) (r : Result ProviderError (Unit {0})) (f : Files)
        → get_model_path urls system p.model ≡ some path
        → p.config ≡ config
        → IsResumed file old (r, f)
        → IsRunning file path config old (after_download urls system p r f)
    unfolding after_download
    after_download-IsRunning p (ok tt) f at same (start, whole, kept) =
        start_server-IsRunning p f at start same (whole refl).0
    after_download-IsRunning p (err e) f at same (start, whole, kept) =
        (start, same, kept, (λ h. absurd (cc)))

  -- Initialization with a server of the file, and with no model in place or the file itself, the
  -- partial file being a beginning of the file. Where the home directory and the URL can be read,
  -- it does not panic and takes the configuration over. It leaves a beginning of the file as the
  -- partial file, and as the model the file or what was there. Where it answers without error, the
  -- file is in place, and the process that the provider keeps was started from it.
  pub initialize-IsRunning :
      (file path : Bytes) (u : urls.Url) (config : ProviderConfig)
      (p : LlamafileProvider urls system) (f : Files)
      → get_model_path urls system p.model ≡ some path
      → model_file_url urls p.model ≡ some u
      → Serves file (system.server u)
      → IsStart (bytes_in f.part) file
      → (f.model ≡ none) ⊎ (f.model ≡ some file)
      → IsRunning file path config f.model (initialize urls system config (p, f))
  initialize-IsRunning file path u config p f at found serves start (inl missing) =
      let p' : LlamafileProvider urls system = record p { config = config } in
      subst (IsRunning file path config f.model)
        (sym (initialize_lem config p f at ∙ provide_missing u p' f missing found))
        (after_download-IsRunning file path config f.model p' _ _ at refl
          (download_model-IsResumed file system.disk (system.server u) f serves start))
  initialize-IsRunning file path u config p f at found serves start (inr there) =
      let p' : LlamafileProvider urls system = record p { config = config } in
      subst (IsRunning file path config f.model)
        (sym (initialize_lem config p f at ∙ provide_there p' f there))
        (start_server-IsRunning file path config f.model p' f at start refl there)

  -- A model in place that the system refuses to run is never downloaded again: every
  -- initialization fails and leaves the files as they are.
  initialize-refused :
      (path old : Bytes) (config : ProviderConfig) (p : LlamafileProvider urls system) (f : Files)
      → get_model_path urls system p.model ≡ some path
      → f.model ≡ some old
      → (kind : ErrorKind) → system.spawn path f ≡ err kind
      → initialize urls system config (p, f)
        ≡ some (err llama_file_server_error, (record p { config = config }, f))
  unfolding spawned
  initialize-refused path old config p f at there kind refused =
      let p' : LlamafileProvider urls system = record p { config = config } in
      initialize_lem config p f at
      ∙ provide_there p' f there
      ∙ start_server_lem p' f at
      ∙ ap (λ s. some (spawned urls system s (p', f))) refused
