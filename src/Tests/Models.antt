-- ===== src/Tests/Models.antt =====
-- The language model driver at a concrete model, server and guest.
use bls_runtime.Prelude.{
  ℕ, ◌≡◌, ◌≢◌, refl, true, false, Option, none, some, List, [], ◌∷◌, ◌++◌, Bytes, codes, ◌==◌,
  arith, length, drop, append-nil, drop-length, sym, ap, ◌∙◌,
}
use bls_runtime.Prelude.Assoc.{lookup, insert, nat_eq}
use bls_runtime.Prelude.Text.{bytes_beq, starts_with, contains, ends_with}
use bls_runtime.Prelude.Result.{ok}
use bls_runtime.Drivers.Http.Streams.{chunk}
use bls_runtime.Drivers.Llm.Models
use bls_runtime.Drivers.Llm.Models.{
  Urls, Models, llama321_b_instruct, model_file, from_str, validate_model_url, validate_filename,
}
use bls_runtime.Drivers.Llm.Models.Trusted.{IsTrusted}
use bls_runtime.Drivers.Llm.Tools.{LlmOptions, Services}
use bls_runtime.Drivers.Llm.Contexts.{
  assistant, Backend, LlmContext, State, llm_set_model, make_context, new_context, insert_instance,
}
use bls_runtime.Drivers.Llm.Contexts.Talks.{talk, converse, talk-converse}
use bls_runtime.Drivers.Llm.Contexts.Opened.{IsMade, llm_set_model-opens}
use bls_runtime.Drivers.Llm.Download.{Server, Head, Files, download_model}
use bls_runtime.Drivers.Llm.Download.Resumed.{
  IsResumed, IsStart, Serves, working, download_model-IsResumed, download_model-doubles,
}

-- A URL library that reads every text as the URL of one file.
abbrev pub one_file : Urls
one_file = record {
  Url = Bytes;
  parse = λ s. some s;
  scheme = λ u. codes "https";
  host_str = λ u. some (codes "files.huggingface.co");
  path = λ u. codes "/m.llamafile";
  path_segments = λ u. some (codes "m.llamafile" ∷ []);
  to_string = λ u. u;
}

abbrev pub no_services : Services
no_services = record {
  Url = Bytes;
  parse_url = λ s. some s;
  Tool = Bytes;
  list_tools = λ u. some [];
  Json = Bytes;
  from_str = λ s. none;
  get = λ j k. none;
  as_str = λ j. some j;
  call_tool = λ u name args. none;
  tools_json = λ ts. [];
  today = codes "June 01, 2025";
}

abbrev pub toolless : LlmOptions Unit
toolless = record { system_message = none; tools_sse_urls = none; temperature = none; top_p = none }

-- A model that always says yes.
abbrev pub agreeable : Backend one_file
agreeable = record {
  Provider = Models one_file;
  new_provider = λ m. m;
  initialize = λ p. some p;
  chat = λ p messages. some (record { role = assistant; content = codes "yes" });
  shutdown = λ p. true;
  clone = λ p. p;
  Float = Unit;
  parse_options = λ s. some toolless;
}

abbrev Context : Type 0
Context = LlmContext one_file no_services agreeable

abbrev Handles : Type 0
Handles = State one_file no_services agreeable

abbrev small : Context
small = record {
  model = codes "Llama-3.2-1B-Instruct";
  provider = llama321_b_instruct none;
  options = toolless;
  messages = [];
  tools_map = none;
}

abbrev one_open : Handles
one_open = record { contexts = (1, small) ∷ []; next_handle = 2 }

abbrev none_open : Handles
none_open = record { contexts = []; next_handle = 1 }

abbrev prompts : List Bytes
prompts = codes "one?" ∷ codes "two?" ∷ []

-- A quantization that is asked for by name loses the extension of the file.
quantized_file :
    model_file one_file (llama321_b_instruct (some (codes "Q6_K")))
    ≡ some (codes "Llama-3.2-1B-Instruct.Q6_K")
unfolding model_file
quantized_file = refl

small_here : lookup 1 one_open.contexts ≡ some small
unfolding lookup
small_here = refl

talk-converse_example :
    (s' : Handles) × (talk one_file no_services agreeable 1 prompts one_open
      ≡ ((converse one_file no_services agreeable small.provider [] prompts).0, s'))
    × ((lookup 1 s'.contexts
          ≡ some (record small {
            messages = (converse one_file no_services agreeable small.provider [] prompts).1;
          }))
        × ((j : ℕ) → (1 == j) ≡ false → lookup j s'.contexts ≡ lookup j one_open.contexts))
talk-converse_example =
    talk-converse one_file no_services agreeable 1 prompts small one_open one_open
      (small_here, λ j differs. refl) refl

abbrev model_url : Bytes
model_url = codes "https://files.huggingface.co/m.llamafile"

abbrev custom : Handles
custom = record {
  contexts = (1, record small { model = model_url; provider = Models.url model_url }) ∷ [];
  next_handle = 2;
}

custom_lem :
    llm_set_model one_file no_services agreeable model_url (λ u. true) none_open ≡ (ok 1, custom)
unfolding llm_set_model make_context new_context insert_instance insert from_str Models.custom_url
    validate_model_url validate_filename lookup bytes_beq starts_with contains ends_with
custom_lem = refl

llm_set_model-opens_example :
    (c : Context) × (lookup 1 custom.contexts ≡ some c)
    × IsMade one_file no_services agreeable model_url (λ u. true) c
    × ((u : Bytes)
        → from_str one_file model_url ≡ ok (Models.url u)
        → (true ≡ true) × ((f : Bytes) × IsTrusted one_file u f))
llm_set_model-opens_example =
    llm_set_model-opens one_file no_services agreeable model_url (λ u. true) none_open custom 1
      custom_lem

-- A server of six bytes that sends what it is asked for, and one that sends all of them always.
abbrev pub six : Bytes
six = codes "abcdef"

abbrev told : Head
told = record { status = 200; linked_size = some 6; content_length = none }

abbrev from_offset : Option ℕ → Bytes
from_offset none = six
from_offset (some n) = drop n six

abbrev pub exact : Server
exact = record {
  head = some told;
  get = λ n. some (record { is_success = true; chunks = chunk (from_offset n) ∷ [] });
}

abbrev stubborn : Server
stubborn = record {
  head = some told;
  get = λ n. some (record { is_success = true; chunks = chunk six ∷ [] });
}

abbrev pub interrupted : Files
interrupted = record { part = some (codes "ab"); model = none; executable = false }

ends_there :
    (before rest : Bytes) → six ≡ before ++ rest → before ++ (drop (length before) six ++ []) ≡ six
ends_there before rest e =
    ap (λ t. before ++ t) (append-nil _ ∙ ap (drop (length before)) e ∙ drop-length before rest)
    ∙ sym e

pub exact-Serves : Serves six exact
exact-Serves = record {
  tells = refl;
  whole = (
    (λ before size start. ([], sym (append-nil _ ∙ none_before before size))),
    λ before size start whole. none_before before size,
  );
  ranges = λ n. (
    (λ before size start. ([], sym (append-nil _ ∙ from_there n before size start))),
    λ before size start whole. from_there n before size start,
  );
}
  where
    none_before : (before : Bytes) → length before ≡ 0 → before ++ (six ++ []) ≡ six
    none_before [] size = refl
    none_before (c ∷ before) size = absurd (omega (arith, size))

    from_there :
        (n : ℕ) (before : Bytes)
        → length before ≡ n
        → IsStart before six
        → before ++ (drop n six ++ []) ≡ six
    from_there n before size (rest, e) =
        ap (λ k. before ++ (drop k six ++ [])) (sym size) ∙ ends_there before rest e

download_model-IsResumed_example :
    IsResumed six interrupted.model (download_model working exact interrupted)
download_model-IsResumed_example =
    download_model-IsResumed six working exact interrupted exact-Serves (codes "cdef", refl)

download_model-doubles_example :
    (f' : Files) × (download_model working stubborn interrupted ≡ (ok tt, f'))
    × (f'.model ≡ some (codes "ab" ++ six))
    × (f'.model ≢ some six)
download_model-doubles_example =
    download_model-doubles six (codes "ab") stubborn told
      (record { is_success = true; chunks = chunk six ∷ [] }) interrupted refl (omega arith)
      (omega arith) refl (omega arith) refl refl refl refl refl
