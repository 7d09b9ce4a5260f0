-- ===== src/Drivers/Llm/Tools.antt =====
-- crates/blockless-drivers/src/llm_driver/mcp.rs: the tools of a conversation, the system prompt
-- that tells of them, and the call that a response may hold. The JSON library, the servers of the
-- tools and the date are parameters; an error keeps no text.
pub mod Calls
use bls_runtime.Prelude.{
  ℕ, suc, ◌+◌, ◌-◌, Bool, true, false, ◌&&◌, Option, none, some, List, [], ◌∷◌, ◌++◌, map, Bytes,
  String, codes, if◌then◌else◌, ltb, leb, ◌==◌, length, take, drop,
}
use bls_runtime.Prelude.Assoc.{Assoc, lookup, insert}
use bls_runtime.Prelude.Text.{bytes_eq}

abbrev joined : List String → Bytes
joined [] = []
joined (s ∷ ss) = codes s ++ joined ss

abbrev default_system_message : Bytes
default_system_message = codes "You are a helpful AI assistant."

abbrev assistant_instructions : Bytes
assistant_instructions = joined (
    "\n" ∷ "# Assistant Instructions\n"
    ∷ "You are a helpful AI assistant that can leverage tools to provide accurate "
    ∷ "and up-to-date information. You excel at understanding when and how to use "
    ∷ "the right tools to solve user requests efficiently.\n" ∷ [])

abbrev tool_instructions : Bytes
tool_instructions = joined (
    "\n" ∷ "# Tool Instructions\n"
    ∷ "You have access to external tools that can provide real-time information, "
    ∷ "perform calculations, and execute specific actions. Always consider using "
    ∷ "these tools when:\n" ∷ "- The user asks for real-time or up-to-date information\n"
    ∷ "- The user's request requires external data that may not be in your " ∷ "training\n"
    ∷ "- A specialized capability would provide a more accurate or detailed " ∷ "response\n"
    ∷ "- You need to verify facts or check current information\n" ∷ "\n" ∷ "Available functions:\n"
    ∷ [])

abbrev function_protocol : Bytes
function_protocol = joined (
    "\n" ∷ "\n" ∷ "Function calling protocol:\n" ∷ "```\n"
    ∷ "<function>{ \"name\": \"example_function_name\", \"arguments\": { "
    ∷ "\"example_name\": \"example_value\" } }</function>\n" ∷ "```\n" ∷ "\n"
    ∷ "Critical requirements for function calls:\n"
    ∷ "- Function calls MUST be enclosed in BOTH <function> and </function> tags\n"
    ∷ "- All required parameters MUST be specified in the arguments object\n"
    ∷ "- When calling a function, respond ONLY with the function call JSON object\n"
    ∷ "- Keep the entire function call on a single line\n" ∷ "- Call only one function at a time\n"
    ∷ "- Include exact parameter names as specified in the function definition\n"
    ∷ "- When using search results in non-function responses, always cite your " ∷ "sources\n"
    ∷ "\n" ∷ "For complex requests, use a step-by-step approach:\n"
    ∷ "1. Analyze what tool is most appropriate for the request\n"
    ∷ "2. Call the function with precise parameters\n"
    ∷ "3. Use the returned data to formulate your complete response\n" ∷ "\n"
    ∷ "When explicitly asked to use MCP (Model Context Protocol), you MUST use the "
    ∷ "functions provided to you.\n" ∷ [])

-- The options of a conversation, over the type of `f32`.
pub record LlmOptions (F : Type 0) : Type 0 where
  pub system_message : Option Bytes
  pub tools_sse_urls : Option (List Bytes)
  pub temperature : Option F
  pub top_p : Option F

-- What a call of a tool gives: whether it is an error, and the items that are texts or not.
pub record CallToolResult : Type 0 where
  pub is_error : Option Bool
  pub content : List (Option Bytes)

-- The servers of tools by their addresses: `list_tools` connects, and lists them with their names;
-- `none` is an error on the way. JSON values, with the members that a call has.
pub record Services : Type 1 where
  pub Url : Type 0
  pub parse_url : Bytes → Option Url
  pub Tool : Type 0
  pub list_tools : Url → Option (List (Bytes × Tool))
  pub Json : Type 0
  pub from_str : Bytes → Option Json
  pub get : Json → Bytes → Option Json
  pub as_str : Json → Option Bytes
  pub call_tool : Url → Bytes → Json → Option CallToolResult
  pub tools_json : List Tool → Bytes
  pub today : Bytes

pub data ProcessFunctionResult : Type 0 where
  no_function_call : ProcessFunctionResult
  function_executed : Bytes → ProcessFunctionResult
  error : ProcessFunctionResult

-- `find` and `rfind` of a character
unfoldable pub find : ℕ → Bytes → Option ℕ
find c [] = none
find c (d ∷ s) = if d == c then some 0 else elim (find c s) [ none ↦ none | some n ↦ some (suc n) ]

unfoldable pub rfind : ℕ → Bytes → Option ℕ
rfind c [] = none
rfind c (d ∷ s) = elim (rfind c s) [
  | none ↦ if d == c then some 0 else none
  | some n ↦ some (suc n)
]

abbrev pub unwrap_or : ℕ → Option ℕ → ℕ
unwrap_or d none = d
unwrap_or d (some n) = n

-- The part of a response that may be a call.
unfoldable pub fn_content : Bytes → Bytes
fn_content content =
    let start_idx = unwrap_or 0 (find b'{' content) in
    let end_idx = unwrap_or (length content) (rfind b'}' content) in
    if ltb start_idx end_idx && ltb end_idx (length content)
    then take (end_idx + 1 - start_idx) (drop start_idx content)
    else if ltb start_idx (length content)
    then drop start_idx content
    else content

abbrev texts : List (Option Bytes) → List Bytes
texts [] = []
texts (none ∷ items) = texts items
texts (some t ∷ items) = t ∷ texts items

abbrev join : Bytes → List Bytes → Bytes
join sep [] = []
join sep (t ∷ []) = t
join sep (t ∷ u ∷ ts) = t ++ (sep ++ join sep (u ∷ ts))

module _ (services : Services) where
  pub record ToolInfo : Type 0 where
    pub url : services.Url
    pub tool : services.Tool
    pub is_accessible : Bool

  abbrev pub ToolsMap : Type 0
  ToolsMap = Assoc Bytes ToolInfo

  -- The tools of one server, the later of one name in place of the earlier.
  unfoldable pub add_tools : services.Url → List (Bytes × services.Tool) → ToolsMap → ToolsMap
  add_tools url [] tools = tools
  add_tools url ((name, tool) ∷ rest) tools =
      add_tools url rest
        (insert name (record { url = url; tool = tool; is_accessible = true }) tools)

  abbrev add_listed : services.Url → Option (List (Bytes × services.Tool)) → ToolsMap → ToolsMap
  add_listed url none tools = tools
  add_listed url (some listed) tools = add_tools url listed tools

  -- An address that cannot be parsed, or a server that does not answer, adds no tools.
  unfoldable pub add_servers : List Bytes → ToolsMap → ToolsMap
  add_servers [] tools = tools
  add_servers (s ∷ urls) tools = elim (services.parse_url s) [
    | none ↦ add_servers urls tools
    | some url ↦ add_servers urls (add_listed url (services.list_tools url) tools)
  ]

  unfoldable pub get_tools_map : List Bytes → ToolsMap
  get_tools_map urls = add_servers urls []

  abbrev values : ToolsMap → List services.Tool
  values [] = []
  values ((name, info) ∷ tools) = info.tool ∷ values tools

  abbrev or_default : Option Bytes → Bytes
  or_default none = default_system_message
  or_default (some m) = m

  abbrev custom : Option Bytes → Bytes
  custom none = []
  custom (some m) = m ++ codes "\n"

  abbrev pub plain_prompt : Option Bytes → Bytes
  plain_prompt message =
      codes "Today Date: "
      ++ (services.today
          ++ (codes "\n" ++ (codes "# Assistant Instructions\n" ++ or_default message)))

  -- With no tools the prompt is the plain one.
  abbrev prompt_for : Option Bytes → Option ToolsMap → Bytes
  prompt_for message none = plain_prompt message
  prompt_for message (some []) = plain_prompt message
  prompt_for message (some (info ∷ tools)) =
      codes "Today Date: "
      ++ (services.today
          ++ (codes "\n"
              ++ (assistant_instructions
                  ++ (custom message
                      ++ (tool_instructions
                          ++ (services.tools_json (values (info ∷ tools)) ++ function_protocol))))))

  abbrev tools_for : Option (List Bytes) → Option ToolsMap
  tools_for none = none
  tools_for (some []) = none
  tools_for (some (url ∷ urls)) = some (get_tools_map (url ∷ urls))

  unfoldable pub construct_system_prompt_with_tools :
      {F : Type 0} → LlmOptions F → Bytes × Option ToolsMap
  construct_system_prompt_with_tools options =
      let tools = tools_for options.tools_sse_urls in
      (prompt_for options.system_message tools, tools)

  abbrev is_error : Option Bool → Bool
  is_error none = false
  is_error (some b) = b

  -- The text of a tool's answer; `none` is an error.
  unfoldable pub call_result : Option CallToolResult → Option Bytes
  call_result none = none
  call_result (some r) =
      if is_error r.is_error then none else some (join (codes " ") (texts r.content))

  unfoldable pub call_tool : Bytes → services.Json → ToolsMap → Option Bytes
  call_tool name args tools = elim (lookup name tools) [
    | none ↦ none
    | some info ↦ call_result (services.call_tool info.url name args)
  ]

  abbrev executed : Option Bytes → ProcessFunctionResult
  executed none = error
  executed (some result) = function_executed result

  abbrev named : Option services.Json → Option Bytes
  named none = none
  named (some name) = services.as_str name

  -- The name and the arguments of a call.
  unfoldable pub process_call :
      Option Bytes → Option services.Json → ToolsMap → ProcessFunctionResult
  process_call (some name) (some args) tools = executed (call_tool name args tools)
  process_call (some name) none tools = no_function_call
  process_call none args tools = no_function_call

  unfoldable pub process_function_call : Bytes → ToolsMap → ProcessFunctionResult
  process_function_call content tools = elim (services.from_str (fn_content content)) [
    | none ↦ no_function_call
    | some fn_call ↦
        process_call (named (services.get fn_call (codes "name")))
          (services.get fn_call (codes "arguments")) tools
  ]
