-- ===== src/Drivers/Llm/Contexts.antt =====
-- crates/blockless-drivers/src/llm_driver/mod.rs with handle.rs and provider.rs: the conversations
-- of the language model driver, each behind a handle. The provider, which starts a model and asks
-- it, is a parameter, and so is what other calls make of the handles while a read waits. A call
-- that does not wait is one step; an error keeps no text.
pub mod Talks
pub mod Opened
pub mod Closed
pub mod Outdated
use bls_runtime.Prelude.{
  ℕ, ◌+◌, ◌%◌, Bool, true, false, Option, none, some, List, [], ◌∷◌, ◌++◌, Bytes, if◌then◌else◌,
  u32_mod,
}
use bls_runtime.Prelude.Assoc.{Assoc, lookup, insert, remove, has_key, nat_eq}
use bls_runtime.Prelude.Result.{Result, ok, err, ◌>>=◌, ◌>>◌, ok_or, guard}
use bls_runtime.Drivers.Llm.Models.{Urls, Models, url, from_str}
use bls_runtime.Drivers.Llm.Tools.{
  LlmOptions, Services, ToolInfo, ToolsMap, construct_system_prompt_with_tools,
  ProcessFunctionResult, no_function_call, function_executed, error, process_function_call,
}

pub data LlmErrorKind : Type 0 where
  model_not_set model_not_supported model_initialization_failed : LlmErrorKind
  model_completion_failed model_options_not_set model_shutdown_failed : LlmErrorKind
  utf8_error runtime_error mcp_function_call_error permission_deny : LlmErrorKind

pub data Role : Type 0 where
  system user assistant tool : Role

pub record Message : Type 0 where
  pub role : Role
  pub content : Bytes

-- A table of values behind handles, which count up from 1 and wrap.
pub record HandleMap (T : Type 0) : Type 0 where
  pub contexts : Assoc ℕ T
  pub next_handle : ℕ

module _ {T : Type 0} where
  abbrev pub default_handles : HandleMap T
  default_handles = record { contexts = []; next_handle = 1 }

  unfoldable pub insert_instance : T → HandleMap T → ℕ × HandleMap T
  insert_instance t h = (
    h.next_handle,
    record {
      contexts = insert h.next_handle t h.contexts;
      next_handle = (h.next_handle + 1) % u32_mod;
    },
  )

  unfoldable pub remove_instance : ℕ → HandleMap T → Option T × HandleMap T
  remove_instance handle h =
      (lookup handle h.contexts, record h { contexts = remove handle h.contexts })

  -- `get` and `with_instance`
  unfoldable pub with_instance : {R : Type 0} → ℕ → (T → R) → HandleMap T → Option R
  with_instance handle f h = elim (lookup handle h.contexts) [ none ↦ none | some t ↦ some (f t) ]

  -- The closure changes the instance and gives nothing back.
  unfoldable pub with_instance_mut : ℕ → (T → T) → HandleMap T → Option (Unit {0}) × HandleMap T
  with_instance_mut handle f h = elim (lookup handle h.contexts) [
    | none ↦ (none, h)
    | some t ↦ (some tt, record h { contexts = insert handle (f t) h.contexts })
  ]

-- What starts a model, asks it and ends it; `none` is an error. The options' JSON text, and what
-- else a guest's options have.
pub record Backend (urls : Urls) : Type 1 where
  pub Provider : Type 0
  pub new_provider : Models urls → Provider
  pub initialize : Provider → Option Provider
  pub chat : Provider → List Message → Option Message
  pub shutdown : Provider → Bool
  pub clone : Provider → Provider
  pub Float : Type 0
  pub parse_options : Bytes → Option (LlmOptions Float)

module _ (urls : Urls) (services : Services) (backend : Backend urls) where
  pub record LlmContext : Type 0 where
    pub model : Bytes
    pub provider : backend.Provider
    pub options : LlmOptions backend.Float
    pub messages : List Message
    pub tools_map : Option (ToolsMap services)

  abbrev pub State : Type 0
  State = HandleMap LlmContext

  unfoldable pub add_message : Role → Bytes → LlmContext → LlmContext
  add_message role content c = record c {
    messages = c.messages ++ (record { role = role; content = content } ∷ []);
  }

  abbrev default_options : LlmOptions backend.Float
  default_options = record {
    system_message = none;
    tools_sse_urls = none;
    temperature = none;
    top_p = none;
  }

  -- `LlmContext::new`
  unfoldable pub new_context : Bytes → backend.Provider → Result LlmErrorKind LlmContext
  new_context model provider = do
    started ← ok_or model_initialization_failed (backend.initialize provider)
    ok (record {
      model = model;
      provider = started;
      options = default_options;
      messages = [];
      tools_map = none;
    })

  abbrev supported : {E A : Type 0} → Result E A → Result LlmErrorKind A
  supported (err e) = err model_not_supported
  supported (ok a) = ok a

  abbrev pub may_open : (urls.Url → Bool) → Models urls → Bool
  may_open checker (url u) = checker u
  may_open checker _ = true

  unfoldable pub make_context : Bytes → (urls.Url → Bool) → Result LlmErrorKind LlmContext
  make_context model checker = do
    supported_model ← supported (from_str urls model)
    guard (may_open checker supported_model) permission_deny
    new_context model (backend.new_provider supported_model)

  abbrev keep_context : Result LlmErrorKind LlmContext → State → Result LlmErrorKind ℕ × State
  keep_context (err e) s = (err e, s)
  keep_context (ok c) s = let (handle, s') = insert_instance c s in (ok handle, s')

  unfoldable pub llm_set_model : Bytes → (urls.Url → Bool) → State → Result LlmErrorKind ℕ × State
  llm_set_model model checker s = keep_context (make_context model checker) s

  unfoldable pub llm_get_model : ℕ → State → Result LlmErrorKind Bytes
  llm_get_model handle s = ok_or model_not_set (with_instance handle (λ c. c.model) s)

  unfoldable pub llm_get_options : ℕ → State → Result LlmErrorKind (LlmOptions backend.Float)
  llm_get_options handle s = ok_or model_not_set (with_instance handle (λ c. c.options) s)

  abbrev set_tools_map : Option (ToolsMap services) → LlmContext → LlmContext
  set_tools_map none c = c
  set_tools_map (some tools) c = record c { tools_map = some tools }

  -- The change of a context by its options.
  unfoldable pub with_options : LlmOptions backend.Float → LlmContext → LlmContext
  with_options options c =
      let (system_prompt, tools) = construct_system_prompt_with_tools services options in
      let c' : LlmContext =
        set_tools_map tools
          (record c { messages = record { role = system; content = system_prompt } ∷ [] }) in
      record c' { options = options }

  -- A change of an instance, whose absence is an error.
  unfoldable pub change :
      ℕ → (LlmContext → LlmContext) → State → Result LlmErrorKind (Unit {0}) × State
  change handle f s =
      let (found, s') = with_instance_mut handle f s in (ok_or model_not_set found, s')

  unfoldable pub llm_set_options : ℕ → Bytes → State → Result LlmErrorKind (Unit {0}) × State
  llm_set_options handle options s = elim (backend.parse_options options) [
    | none ↦ (err model_options_not_set, s)
    | some parsed ↦ change handle (with_options parsed) s
  ]

  unfoldable pub llm_prompt : ℕ → Bytes → State → Result LlmErrorKind (Unit {0}) × State
  llm_prompt handle prompt s = change handle (add_message user prompt) s

  -- The steps of a read: each takes the handles, and gives a result and the handles.
  abbrev pub Step : Type 0 → Type 0
  Step A = State → Result LlmErrorKind A × State

  abbrev then_step :
      {A B : Type 0} → Result LlmErrorKind A × State → (A → Step B) → Result LlmErrorKind B × State
  then_step (err e, s) f = (err e, s)
  then_step (ok a, s) f = f a s

  module _ (meanwhile : ℕ → State → State) where
    -- The model is asked, in the wait of this number.
    unfoldable pub ask : ℕ → backend.Provider → List Message → Step Bytes
    ask n provider messages s = elim (backend.chat provider messages) [
      | none ↦ (err model_completion_failed, meanwhile n s)
      | some m ↦ (ok m.content, meanwhile n s)
    ]

    -- A text goes to the end of the conversation, and is passed on.
    unfoldable pub record_message : ℕ → Role → Bytes → Step Bytes
    record_message handle role content s =
        then_step (change handle (add_message role content) s) (λ u s'. (ok content, s'))

    unfoldable pub get_messages : ℕ → Step (List Message)
    get_messages handle s = (ok_or model_not_set (with_instance handle (λ c. c.messages) s), s)

    -- The answer behind a call that was executed.
    unfoldable pub answer_tool : ℕ → backend.Provider → Bytes → Step Bytes
    answer_tool handle provider result s = then_step (record_message handle tool result s) λ r.
        λ s1. then_step (get_messages handle s1) λ updated. λ s2.
          then_step (ask 2 provider updated s2) λ response. record_message handle assistant response

    unfoldable pub process_result :
        ℕ → backend.Provider → Bytes → ProcessFunctionResult → Step Bytes
    process_result handle provider response no_function_call s = (ok response, s)
    process_result handle provider response (function_executed result) s =
        answer_tool handle provider result s
    process_result handle provider response error s = (err mcp_function_call_error, s)

    abbrev pub has_accessible : ToolsMap services → Bool
    has_accessible [] = false
    has_accessible ((name, info) ∷ tools) =
        if info.is_accessible then true else has_accessible tools

    -- What is done with a response, by the tools that the conversation had when the read began.
    unfoldable pub process_tools :
        ℕ → backend.Provider → Option (ToolsMap services) → Bytes → Step Bytes
    process_tools handle provider none response s = (ok response, s)
    process_tools handle provider (some tools) response s =
        if has_accessible tools
        then process_result handle provider response (process_function_call services response tools)
            (meanwhile 1 s)
        else (ok response, s)

    unfoldable pub read_with : ℕ → LlmContext → Step Bytes
    read_with handle c s = then_step (ask 0 c.provider c.messages s) λ response. λ s1.
        then_step (record_message handle assistant response s1)
          λ r. process_tools handle c.provider c.tools_map response

    unfoldable pub llm_read_response : ℕ → Step Bytes
    llm_read_response handle s = elim (lookup handle s.contexts) [
      | none ↦ (err model_not_set, s)
      | some c ↦ read_with handle c s
    ]

  -- `is_shared` is whether a read of the handle holds its provider: then a clone is shut down.
  unfoldable pub llm_close : Bool → ℕ → State → Result LlmErrorKind (Unit {0}) × State
  llm_close is_shared handle s =
      let (removed, s') = remove_instance handle s in
      elim removed [
        | none ↦ (ok tt, s')
        | some c ↦
            let provider = if is_shared then backend.clone c.provider else c.provider in
            (if backend.shutdown provider then ok tt else err model_shutdown_failed, s')
      ]
