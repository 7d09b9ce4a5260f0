-- ===== src/Tests/Registrations.antt =====
-- A configuration file that is read, and functions that a guest registers.
use bls_runtime.Prelude.{
  ℕ, ◌≡◌, refl, Bool, true, false, Option, some, none, List, [], ◌∷◌, Bytes, codes, All,
  if◌then◌else◌,
}
use bls_runtime.Prelude.Assoc.{lookup, insert, nat_eq}
use bls_runtime.Prelude.Text.{bytes_eq, bytes_beq}
use bls_runtime.Config
use bls_runtime.Config.{BlocklessConfig}
use bls_runtime.Cli.{Outcome, done}
use bls_runtime.Cli.Files.{from_json_string, read_optimize, read_version}
use bls_runtime.Cli.Files.Items.{JsonLibrary, map_dirs}
use bls_runtime.Cli.Files.Laws.{IsRead, from_json_string-IsRead}
use bls_runtime.Modules.{McallError, no_error}
use bls_runtime.Modules.Registry.{
  Extern, memory, func, InstanceCtx, empty_ctx, CallerError, instance_caller, gathered_none,
  gather_all, Engine, keep_exports, register_methods,
}
use bls_runtime.Modules.Registry.Calls.{
  Json, Guest, request, process_register_req, register_text, register_in, register_fn,
}
use bls_runtime.Modules.Registry.Registered.{IsCallable, register_fn-registers}

-- A value is a text, a list, or an object with named values; every text is read as one object.
data Value : Type 0 where
  nothing : Value
  text : Bytes → Value
  two_texts : Bytes → Bytes → Value
  object : Bytes → Value → Value → Value

abbrev field : Value → Bytes → Value
field (object entry permissions rest) name =
    if bytes_beq name (codes "entry")
    then text entry
    else if bytes_beq name (codes "permissions")
    then permissions
    else nothing
field _ name = nothing

abbrev text_of : Value → Option Bytes
text_of (text s) = some s
text_of _ = none

abbrev items_of : Value → Option (List Value)
items_of (two_texts a b) = some (text a ∷ text b ∷ [])
items_of _ = none

abbrev is_nothing : Value → Bool
is_nothing nothing = true
is_nothing _ = false

abbrev parse_any : Bytes → Option Value
parse_any s = some (object s (two_texts (codes "http://a.org") (codes "tcp")) nothing)

abbrev json_library : JsonLibrary
json_library = record {
  Value = Value;
  parse = parse_any;
  index = field;
  as_str = text_of;
  as_u64 = λ v. none;
  as_usize = λ v. none;
  as_bool = λ v. none;
  is_null = is_nothing;
  is_array = λ v. false;
  is_object = λ v. false;
  array = items_of;
  members = λ v. [];
  entries = λ v. [];
  stringify = λ s. s;
}

abbrev is_text : Bytes → Bool
is_text s = true

abbrev config_of : Outcome BlocklessConfig → BlocklessConfig
config_of (done c) = c
config_of _ = Config.new []

abbrev read_config : BlocklessConfig
read_config = config_of (from_json_string json_library is_text (codes "app.wasm"))

config_accepted : from_json_string json_library is_text (codes "app.wasm") ≡ done read_config
unfolding from_json_string map_dirs read_optimize read_version bytes_beq
config_accepted = refl

from_json_string-IsRead_example :
    (json : Value) × (parse_any (codes "app.wasm") ≡ some json)
    × (text_of (field json (codes "entry")) ≡ some read_config.entry)
    × All IsRead read_config.permisions
from_json_string-IsRead_example =
    from_json_string-IsRead json_library is_text (codes "app.wasm") read_config config_accepted

-- The exports of a module: a memory, which is the text of its name, and functions, which are their
-- numbers.
abbrev exports : List (Bytes × Extern Bytes ℕ)
exports =
    (codes "memory", memory (codes "math"))
    ∷ (codes "alloc", func 1)
    ∷ (codes "dealloc", func 2)
    ∷ (codes "add", func 3)
    ∷ []

-- The state is the memory of the guest.
abbrev engine : Engine Bytes ℕ Bytes
engine = record {
  instantiate = λ s. (some exports, s);
  data_ptr = λ m s. 64;
  is_alloc = λ f. true;
  is_dealloc = λ f. true;
  is_start = λ f. true;
  is_caller = λ f. true;
  link = λ name s. (true, s);
  start = λ f s. (true, s);
}

-- A request is the text of one method.
abbrev json : Json
json = record {
  Value = Bytes;
  parse = λ s. some s;
  index = λ v name. v;
  as_str = λ v. some v;
  members = λ v. v ∷ [];
  to_string = λ v. v;
  dump = λ v. v;
  dump_error = λ s. s;
}

abbrev guest : Guest Bytes
guest = record { has_memory = λ s. true; mem_ptr = λ s. 64; data_of = λ s. s; set_data = λ d s. d }

abbrev memory_text : Bytes
memory_text = codes "add and more"

abbrev kept : InstanceCtx Bytes ℕ
kept =
    (keep_exports engine (codes "math") (gather_all exports gathered_none) memory_text
      empty_ctx).1.1

abbrev describe : CallerError → Bytes
describe e = []

abbrev ctx_of : Option (McallError × Bytes × InstanceCtx Bytes ℕ) → InstanceCtx Bytes ℕ
ctx_of none = kept
ctx_of (some answer) = answer.2

abbrev registered : InstanceCtx Bytes ℕ
registered = ctx_of (register_fn json guest engine.is_caller describe 0 3 0 0 memory_text kept)

add_registered :
    register_fn json guest engine.is_caller describe 0 3 0 0 memory_text kept
    ≡ some (no_error, memory_text, registered)
unfolding register_fn register_in register_text register_methods instance_caller request
    process_register_req keep_exports gather_all lookup insert bytes_beq
add_registered = refl

register_fn-registers_example :
    (memory_text ≡ memory_text)
    × (m text : Bytes) × (methods : List Bytes) × (request memory_text 0 3 ≡ some text)
    × (lookup 64 kept.modules ≡ some m)
    × (process_register_req json text ≡ some methods)
    × All (IsCallable engine.is_caller registered m) methods
register_fn-registers_example =
    register_fn-registers json guest engine.is_caller describe 0 3 0 0 memory_text memory_text kept
      registered add_registered
