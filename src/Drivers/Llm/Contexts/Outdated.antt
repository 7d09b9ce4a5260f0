-- ===== src/Drivers/Llm/Contexts/Outdated.antt =====
-- Tools that outlive the options that named them.
use bls_runtime.Prelude.{ℕ, ◌≡◌, refl, ap, ◌∙◌, true, none, some, [], ◌∷◌, ◌++◌, Bytes}
use bls_runtime.Prelude.Assoc.{lookup, insert, nat_eq}
use bls_runtime.Prelude.Result.{ok}
use bls_runtime.Drivers.Handles.{insert-same}
use bls_runtime.Drivers.Llm.Models.{Urls}
use bls_runtime.Drivers.Llm.Tools.{
  LlmOptions, Services, ToolsMap, function_executed, process_function_call,
  construct_system_prompt_with_tools, plain_prompt,
}
use bls_runtime.Drivers.Llm.Contexts.{
  system, assistant, tool, Role, Message, with_instance, Backend, LlmContext, State, add_message,
  record_message, get_messages, answer_tool, process_result, process_tools, has_accessible,
  read_with, llm_read_response, llm_set_options, with_options,
}
use bls_runtime.Drivers.Llm.Contexts.Talks.{alone, change_lem, asks}

module _ (urls : Urls) (services : Services) (backend : Backend urls) where
  abbrev Handles : Type 0
  Handles = State urls services backend

  abbrev Context : Type 0
  Context = LlmContext urls services backend

  abbrev pub said : Role → Bytes → Message
  said role text = record { role = role; content = text }

  -- What options without tool servers make of a conversation.
  abbrev restarted : LlmOptions backend.Float → Context → Context
  restarted options c = record c {
    options = options;
    messages = said system (plain_prompt services options.system_message) ∷ [];
  }

  with_options-restarted :
      (options : LlmOptions backend.Float) (c : Context)
      → options.tools_sse_urls ≡ none
      → with_options urls services backend options c ≡ restarted options c
  unfolding with_options construct_system_prompt_with_tools
  with_options-restarted options c toolless =
      rw (toolless, construct_system_prompt_with_tools, with_options) refl

  set_lem :
      (handle : ℕ) (text : Bytes) (options : LlmOptions backend.Float) (c : Context) (s : Handles)
      → lookup handle s.contexts ≡ some c
      → backend.parse_options text ≡ some options
      → options.tools_sse_urls ≡ none
      → llm_set_options urls services backend handle text s
        ≡ (ok tt, record s { contexts = insert handle (restarted options c) s.contexts })
  unfolding llm_set_options
  set_lem handle text options c s here parsed toolless =
      rw (parsed, llm_set_options)
        (change_lem urls services backend handle (with_options urls services backend options) s c
            here
          ∙ ap (λ (d : Context). (ok tt, record s { contexts = insert handle d s.contexts }))
              (with_options-restarted options c toolless))

  -- A message goes to the end of a conversation.
  abbrev with_said : Role → Bytes → Context → Context
  with_said role text c = record c { messages = c.messages ++ (said role text ∷ []) }

  abbrev put : ℕ → Context → Handles → Handles
  put handle c s = record s { contexts = insert handle c s.contexts }

  recorded :
      (handle : ℕ) (role : Role) (text : Bytes) (c : Context) (s : Handles)
      → lookup handle s.contexts ≡ some c
      → record_message urls services backend (alone urls services backend) handle role text s
        ≡ (ok text, put handle (with_said role text c) s)
  unfolding record_message add_message
  recorded handle role text c s here =
      rw
        (
          change_lem urls services backend handle (add_message urls services backend role text) s c
              here,
          record_message,
        )
        refl

  -- What comes behind a call that was executed: its result and the model's next answer are put
  -- into the conversation.
  answered :
      (handle : ℕ) (c : Context) (answer : Message) (result : Bytes) (s : Handles)
      → lookup handle s.contexts ≡ some c
      → backend.chat c.provider (with_said tool result c).messages ≡ some answer
      → answer_tool urls services backend (alone urls services backend) handle c.provider result s
        ≡ (
          ok answer.content,
          put handle
              (with_said assistant answer.content (with_said tool result c))
              (put handle (with_said tool result c) s),
        )
  unfolding answer_tool get_messages with_instance
  answered handle c answer result s here second =
      let c' : Context = with_said tool result c in
      let s' : Handles = put handle c' s in
      let here' : lookup handle s'.contexts ≡ some c' = insert-same handle c' s.contexts in
      rw
        (
          answer_tool,
          recorded handle tool result c s here,
          get_messages,
          with_instance,
          here',
          asks urls services backend 2 c.provider c'.messages s' answer second,
          recorded handle assistant answer.content c' s' here',
        )
        refl

  -- A read, with no other call in between, whose response calls a tool that the handle has.
  read_called :
      (handle : ℕ) (c : Context) (tools : ToolsMap services) (m answer : Message) (result : Bytes)
      (s : Handles)
      → lookup handle s.contexts ≡ some c
      → c.tools_map ≡ some tools
      → has_accessible urls services backend (alone urls services backend) tools ≡ true
      → backend.chat c.provider c.messages ≡ some m
      → process_function_call services m.content tools ≡ function_executed result
      → backend.chat c.provider (with_said tool result (with_said assistant m.content c)).messages
        ≡ some answer
      → (s' : Handles) × (llm_read_response urls services backend
            (alone urls services backend)
            handle
            s
          ≡ (ok answer.content, s'))
        × (lookup handle s'.contexts
            ≡ some (
                with_said assistant answer.content
                  (with_said tool result (with_said assistant m.content c))))
  unfolding llm_read_response read_with process_tools process_result
  read_called handle c tools m answer result s here kept accessible first called second =
      let c1 : Context = with_said assistant m.content c in
      let s1 : Handles = put handle c1 s in
      let here1 : lookup handle s1.contexts ≡ some c1 = insert-same handle c1 s.contexts in
      let c3 : Context = with_said assistant answer.content (with_said tool result c1) in
      let s2 : Handles = put handle (with_said tool result c1) s1 in
      let process =
        process_tools urls services backend (alone urls services backend) handle c.provider in
      let read : llm_read_response urls services backend (alone urls services backend) handle s
          ≡ process c.tools_map m.content s1 =
        rw
          (
            here,
            llm_read_response,
            read_with,
            asks urls services backend 0 c.provider c.messages s m first,
            recorded handle assistant m.content c s here,
          )
          refl in
      let tooled : process (some tools) m.content s1 ≡ (ok answer.content, put handle c3 s2) =
        rw (process_tools, accessible, called, process_result)
          (answered handle c1 answer result s1 here1 second) in
      (
        put handle c3 s2,
        read ∙ ap (λ o. process o m.content s1) kept ∙ tooled,
        insert-same handle c3 s2.contexts,
      )

  -- For a handle whose conversation has an accessible tool, and options without tool servers: they
  -- are accepted, and the conversation starts again with a prompt that tells of no tools. Yet where
  -- the model's response to it is a call of an old tool that succeeds, the next read, with no other
  -- call in between, executes it: the conversation gets the response, the result of the tool and
  -- the model's answer to it, which is what the read gives.
  pub llm_set_options-calls_old_tools :
      (handle : ℕ) (text : Bytes) (options : LlmOptions backend.Float) (c : Context)
      (tools : ToolsMap services) (m answer : Message) (result : Bytes) (s : Handles)
      → lookup handle s.contexts ≡ some c
      → c.tools_map ≡ some tools
      → has_accessible urls services backend (alone urls services backend) tools ≡ true
      → backend.parse_options text ≡ some options
      → options.tools_sse_urls ≡ none
      → backend.chat c.provider (restarted options c).messages ≡ some m
      → process_function_call services m.content tools ≡ function_executed result
      → backend.chat c.provider
          (with_said tool result (with_said assistant m.content (restarted options c))).messages
        ≡ some answer
      → (s1 s2 : Handles) × (llm_set_options urls services backend handle text s ≡ (ok tt, s1))
        × (llm_read_response urls services backend (alone urls services backend) handle s1
            ≡ (ok answer.content, s2))
        × (lookup handle s2.contexts
            ≡ some (record c {
              options = options;
              messages =
                  said system (plain_prompt services options.system_message)
                  ∷ said assistant m.content
                  ∷ said tool result
                  ∷ said assistant answer.content
                  ∷ [];
            }))
  llm_set_options-calls_old_tools handle text options c tools m answer result s here kept accessible
        parsed toolless first called second =
      let c1 : Context = restarted options c in
      let s1 : Handles = put handle c1 s in
      let (s2, read, there) =
        read_called handle c1 tools m answer result s1 (insert-same handle c1 s.contexts) kept
          accessible first called second in
      (s1, s2, set_lem handle text options c s here parsed toolless, read, there)
