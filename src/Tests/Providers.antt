-- ===== src/Tests/Providers.antt =====
-- The provider of a language model, on a small file.
use bls_runtime.Prelude.{
  ◌≡◌, refl, ℕ, true, none, some, [], ◌∷◌, ◌++◌, Bytes, codes, inl, if◌then◌else◌,
}
use bls_runtime.Prelude.Result.{ok, err}
use bls_runtime.Drivers.Llm.Models.{url, model_repo, model_file}
use bls_runtime.Drivers.Llm.Contexts.{Message}
use bls_runtime.Drivers.Llm.Download.Resumed.{working}
use bls_runtime.Drivers.Llm.Provider.{
  System, permission_denied, LlamafileProvider, ProviderConfig, default_provider_config, new,
  get_model_path, initialize, model_file_url, display,
}
use bls_runtime.Drivers.Llm.Provider.Running.{IsRunning, initialize-IsRunning}
use bls_runtime.Tests.Models.{one_file, six, exact, interrupted, exact-Serves}

-- A system with a server of the file on which what can be run runs.
abbrev linux : System one_file
linux = record {
  home = some (codes "/home/b");
  join = λ a b. a ++ (b'/' ∷ b);
  server = λ u. exact;
  disk = working;
  Process = ℕ;
  spawn = λ path f. if f.executable then ok 7 else err permission_denied;
  kill = λ p. true;
  wait = λ p. true;
  decimal = λ n. codes "8080";
  Reply = Message;
  Json = Message;
  post = λ u model messages timeout. elim messages [ [] ↦ none | m ∷ ms ↦ some m ];
  json = λ m. some m;
  by_key = λ k m. m;
  by_index = λ i m. m;
  from_value = λ m. some m;
}

abbrev custom : LlamafileProvider one_file linux
custom = new one_file linux (url (codes "https://files.huggingface.co/m.llamafile"))

abbrev other_port : ProviderConfig
other_port = record default_provider_config { port = 9000 }

abbrev model_path : Bytes
model_path = codes "/home/b/.blessnet/models/m.llamafile"

custom_path : get_model_path one_file linux custom.model ≡ some model_path
unfolding get_model_path new model_file
custom_path = refl

custom_url :
    model_file_url one_file custom.model ≡ some (codes "https://files.huggingface.co/m.llamafile")
unfolding model_file_url new model_repo display
custom_url = refl

initialize-IsRunning_example :
    IsRunning one_file linux six model_path other_port interrupted.model
      (initialize one_file linux other_port (custom, interrupted))
initialize-IsRunning_example =
    initialize-IsRunning one_file linux six model_path
      (codes "https://files.huggingface.co/m.llamafile") other_port custom interrupted custom_path
      custom_url exact-Serves (codes "cdef", refl) (inl refl)
