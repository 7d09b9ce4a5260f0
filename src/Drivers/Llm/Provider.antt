-- ===== src/Drivers/Llm/Provider.antt =====
-- crates/blockless-drivers/src/llm_driver/llamafile.rs, `LlamafileProvider`, and its configuration
-- of provider.rs: the model's file is put in place, its server started, asked and ended. The home
-- directory, the paths, the processes, the network and the JSON library are parameters. `none`
-- stands for a panic.
pub mod Running
use bls_runtime.Prelude.{
  ℕ, Bool, false, Option, none, some, List, [], ◌∷◌, ◌++◌, Bytes, codes, if◌then◌else◌,
}
use bls_runtime.Prelude.Result.{Result, ok, err, ◌>>=◌, ok_or}
use bls_runtime.Drivers.Llm.Models.{
  Urls, Models, model_repo, model_file, llama321_b_instruct, llama323_b_instruct,
  mistral7_b_instruct_v03, mixtral8x7_b_instruct_v01, gemma22_b_instruct, gemma27_b_instruct,
  gemma29_b_instruct, url,
}
use bls_runtime.Drivers.Llm.Contexts.{Message}
use bls_runtime.Drivers.Llm.Download.{
  ProviderError, communication_error, invalid_response, llama_file_server_error, shutdown_error,
  Server, Disk, Files, download_model,
}

pub record ProviderConfig : Type 0 where
  pub host : Bytes
  pub port : ℕ
  pub timeout : ℕ

abbrev pub default_provider_config : ProviderConfig
default_provider_config = record { host = codes "127.0.0.1"; port = 8080; timeout = 30 }

-- The kinds of errors of a spawn.
pub data ErrorKind : Type 0 where
  not_found permission_denied other : ErrorKind

-- What the provider runs on. The files are those of the model's path; a reply can be read as JSON,
-- and a value of it looked up by a key or an index.
pub record System (urls : Urls) : Type 1 where
  pub home : Option Bytes
  pub join : Bytes → Bytes → Bytes
  pub server : urls.Url → Server
  pub disk : Disk
  pub Process : Type 0
  pub spawn : Bytes → Files → Result ErrorKind Process
  pub kill : Process → Bool
  pub wait : Process → Bool
  pub decimal : ℕ → Bytes
  pub Reply : Type 0
  pub Json : Type 0
  pub post : Bytes → Bytes → List Message → ℕ → Option Reply
  pub json : Reply → Option Json
  pub by_key : Bytes → Json → Json
  pub by_index : ℕ → Json → Json
  pub from_value : Json → Option Message

module _ (urls : Urls) where
  unfoldable pub display : Models urls → Bytes
  display (llama321_b_instruct q) = codes "Llama-3.2-1B-Instruct"
  display (llama323_b_instruct q) = codes "Llama-3.2-3B-Instruct"
  display (mistral7_b_instruct_v03 q) = codes "Mistral-7B-Instruct-v0.3"
  display (mixtral8x7_b_instruct_v01 q) = codes "Mixtral-8x7B-Instruct-v0.1"
  display (gemma22_b_instruct q) = codes "gemma-2-2b-it"
  display (gemma27_b_instruct q) = codes "gemma-2-27b-it"
  display (gemma29_b_instruct q) = codes "gemma-2-9b-it"
  display (url u) = urls.to_string u

  -- The URL of a file in a repository.
  abbrev repo_url : Bytes → Bytes → Bytes
  repo_url repo file =
      codes "https://huggingface.co"
      ++ (b'/' ∷ repo ++ (codes "/resolve/main/" ++ (file ++ codes "?download=true")))

  unfoldable pub model_file_url : Models urls → Option urls.Url
  model_file_url m = elim (model_repo urls m) [
    | some repo ↦ elim (model_file urls m) [
      | some file ↦ urls.parse (repo_url repo file)
      | none ↦ none
    ]
    | none ↦ urls.parse (display m)
  ]

  module _ (system : System urls) where
    pub record LlamafileProvider : Type 0 where
      pub model : Models urls
      pub process : Option system.Process
      pub config : ProviderConfig

    abbrev pub State : Type 0
    State = LlamafileProvider × Files

    abbrev pub Outcome : Type 0
    Outcome = Result ProviderError (Unit {0}) × State

    unfoldable pub new : Models urls → LlamafileProvider
    new m = record { model = m; process = none; config = default_provider_config }

    unfoldable pub clone : LlamafileProvider → LlamafileProvider
    clone p = record p { process = none }

    unfoldable pub get_model_path : Models urls → Option Bytes
    get_model_path m = elim system.home [
      | none ↦ none
      | some home ↦ elim (model_file urls m) [
        | some file ↦ some (system.join (system.join home (codes ".blessnet/models")) file)
        | none ↦ none
      ]
    ]

    unfoldable pub spawned : Result ErrorKind system.Process → State → Outcome
    spawned (ok process) (p, f) = (ok tt, (record p { process = some process }, f))
    spawned (err kind) s = (err llama_file_server_error, s)

    unfoldable pub start_server : State → Option Outcome
    start_server (p, f) = elim (get_model_path p.model) [
      | some path ↦ some (spawned (system.spawn path f) (p, f))
      | none ↦ none
    ]

    -- Behind the download.
    unfoldable pub after_download :
        LlamafileProvider → Result ProviderError (Unit {0}) → Files → Option Outcome
    after_download p (ok t) f = start_server (p, f)
    after_download p (err e) f = some (err e, (p, f))

    unfoldable pub provide : LlamafileProvider → Files → Option Outcome
    provide p f = elim f.model [
      | some file ↦ start_server (p, f)
      | none ↦ elim (model_file_url p.model) [
        | some u ↦
            let (r, f') = download_model system.disk (system.server u) f in after_download p r f'
        | none ↦ none
      ]
    ]

    unfoldable pub initialize : ProviderConfig → State → Option Outcome
    initialize config (p, f) =
        let p' : LlamafileProvider = record p { config = config } in
        elim (get_model_path p.model) [ some path ↦ provide p' f | none ↦ none ]

    abbrev chat_url : ProviderConfig → Bytes
    chat_url c =
        codes "http://"
        ++ (c.host ++ (b':' ∷ system.decimal c.port ++ codes "/v1/chat/completions"))

    unfoldable pub chat : LlamafileProvider → List Message → Result ProviderError Message
    chat p messages = do
      response ←
          ok_or communication_error
            (system.post (chat_url p.config) (display p.model) messages p.config.timeout)
      answer ← ok_or invalid_response (system.json response)
      ok_or invalid_response (
          system.from_value (
            system.by_key (codes "message")
              (system.by_index 0 (system.by_key (codes "choices") answer))))

    unfoldable pub shutdown :
        LlamafileProvider → Result ProviderError (Unit {0}) × LlamafileProvider
    shutdown p = elim p.process [
      | none ↦ (ok tt, p)
      | some process ↦
          let ended = if system.kill process then system.wait process else false in
          (if ended then ok tt else err shutdown_error, record p { process = none })
    ]
