-- ===== src/Tests/Tools.antt =====
-- A conversation whose options no longer name the server of its tool.
use bls_runtime.Prelude.{◌≡◌, refl, true, none, some, [], ◌∷◌, codes, ◌==◌, if◌then◌else◌, length}
use bls_runtime.Prelude.Assoc.{lookup, nat_eq}
use bls_runtime.Prelude.Text.{bytes_eq, bytes_beq}
use bls_runtime.Prelude.Result.{ok}
use bls_runtime.Drivers.Llm.Models.{llama321_b_instruct}
use bls_runtime.Drivers.Llm.Tools.{
  ToolsMap, Services, plain_prompt, function_executed, process_function_call, process_call,
  call_tool, call_result, fn_content, find, rfind,
}
use bls_runtime.Drivers.Llm.Contexts.{
  system, assistant, tool, Backend, LlmContext, State, llm_set_options, llm_read_response,
}
use bls_runtime.Drivers.Llm.Contexts.Talks.{alone}
use bls_runtime.Drivers.Llm.Contexts.Outdated.{said, llm_set_options-calls_old_tools}
use bls_runtime.Tests.Models.{one_file, no_services, agreeable, toolless}

-- A text is its own JSON value, and every tool says five.
abbrev services : Services
services = record no_services {
  from_str = λ s. some s;
  get = λ j k. some j;
  call_tool = λ u name args. some (record { is_error = none; content = some (codes "5") ∷ [] });
}

-- A model that calls its tool, and tells what it said.
abbrev model : Backend one_file
model = record agreeable {
  chat = λ p messages. some (
      said one_file services agreeable assistant
        (if length messages == 3 then codes "It is 5." else codes "add"));
}

abbrev old_tools : ToolsMap services
old_tools =
    (codes "add", record { url = codes "http://t"; tool = codes "add"; is_accessible = true }) ∷ []

abbrev context : LlmContext one_file services model
context = record {
  model = codes "Llama-3.2-1B-Instruct";
  provider = llama321_b_instruct none;
  options = toolless;
  messages = [];
  tools_map = some old_tools;
}

abbrev handles : State one_file services model
handles = record { contexts = (1, context) ∷ []; next_handle = 2 }

here : lookup 1 handles.contexts ≡ some context
unfolding lookup
here = refl

called : process_function_call services (codes "add") old_tools ≡ function_executed (codes "5")
unfolding process_function_call process_call call_tool call_result fn_content find rfind lookup
    bytes_beq
called = refl

llm_set_options-calls_old_tools_example :
    (s1 s2 : State one_file services model) × (llm_set_options one_file services model 1 [] handles
      ≡ (ok tt, s1))
    × (llm_read_response one_file services model (alone one_file services model) 1 s1
        ≡ (ok (codes "It is 5."), s2))
    × (lookup 1 s2.contexts
        ≡ some (record context {
          messages =
              said one_file services model system (plain_prompt services none)
              ∷ said one_file services model assistant (codes "add")
              ∷ said one_file services model tool (codes "5")
              ∷ said one_file services model assistant (codes "It is 5.")
              ∷ [];
        }))
llm_set_options-calls_old_tools_example =
    llm_set_options-calls_old_tools one_file services model 1 [] toolless context old_tools
      (said one_file services model assistant (codes "add"))
      (said one_file services model assistant (codes "It is 5.")) (codes "5") handles here refl refl
      refl refl refl called refl
