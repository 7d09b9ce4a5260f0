-- ===== src/Config/Options.antt =====
-- crates/wasi-common/src/blockless/config.rs: the engine options, which the macro `bls_options!`
-- reads by name. A field of `OptimizeOpts` is an entry of `opt_fields`, with the type that chooses
-- its parser; the options that are set are a map from names to values.
pub mod Laws
use mathlib.Core.Option
use bls_runtime.Prelude.{
  ℕ, ◌^◌, Bool, true, false, Option, none, some, List, [], ◌∷◌, Bytes, codes, if◌then◌else◌, ◌||◌,
  map,
}
use bls_runtime.Prelude.Assoc.{Assoc, lookup, insert}
use bls_runtime.Prelude.Text.{bytes_eq, bytes_beq, strip_prefix, from_str_radix}

pub data OptKind : Type 0 where
  opt_level regalloc boolean u32 u64 usize : OptKind

pub data OptLevel : Type 0 where
  level_none speed speed_and_size : OptLevel

pub data RegallocAlgorithm : Type 0 where
  backtracking single_pass : RegallocAlgorithm

pub data OptValue : Type 0 where
  level : OptLevel → OptValue
  algorithm : RegallocAlgorithm → OptValue
  flag : Bool → OptValue
  number : ℕ → OptValue

unfoldable pub opt_fields : Assoc Bytes OptKind
opt_fields =
    (codes "opt_level", opt_level)
    ∷ (codes "regalloc_algorithm", regalloc)
    ∷ (codes "memory_may_move", boolean)
    ∷ (codes "memory_reservation", u64)
    ∷ (codes "memory_reservation_for_growth", u64)
    ∷ (codes "memory_guard_size", u64)
    ∷ (codes "guard_before_linear_memory", boolean)
    ∷ (codes "table_lazy_init", boolean)
    ∷ (codes "pooling_allocator", boolean)
    ∷ (codes "pooling_decommit_batch_size", usize)
    ∷ (codes "pooling_memory_keep_resident", usize)
    ∷ (codes "pooling_table_keep_resident", usize)
    ∷ (codes "pooling_memory_protection_keys", boolean)
    ∷ (codes "pooling_max_memory_protection_keys", usize)
    ∷ (codes "memory_init_cow", boolean)
    ∷ (codes "pooling_total_core_instances", u32)
    ∷ (codes "pooling_total_component_instances", u32)
    ∷ (codes "pooling_total_memories", u32)
    ∷ (codes "pooling_total_tables", u32)
    ∷ (codes "pooling_total_stacks", u32)
    ∷ (codes "pooling_max_memory_size", usize)
    ∷ (codes "pooling_table_elements", usize)
    ∷ (codes "pooling_max_core_instance_size", usize)
    ∷ (codes "pooling_max_unused_warm_slots", u32)
    ∷ (codes "pooling_async_stack_zeroing", boolean)
    ∷ (codes "pooling_async_stack_keep_resident", usize)
    ∷ (codes "pooling_max_component_instance_size", usize)
    ∷ (codes "pooling_max_core_instances_per_component", u32)
    ∷ (codes "pooling_max_memories_per_component", u32)
    ∷ (codes "pooling_max_tables_per_component", u32)
    ∷ (codes "pooling_max_tables_per_module", u32)
    ∷ (codes "pooling_max_memories_per_module", u32)
    ∷ (codes "pooling_total_gc_heaps", u32)
    ∷ (codes "signals_based_traps", boolean)
    ∷ (codes "dynamic_memory_guard_size", u64)
    ∷ (codes "static_memory_guard_size", u64)
    ∷ (codes "static_memory_forced", boolean)
    ∷ (codes "static_memory_maximum_size", u64)
    ∷ (codes "dynamic_memory_reserved_for_growth", u64)
    ∷ []

-- `0x` in front asks for hexadecimal digits.
unfoldable pub parse_number : ℕ → Bytes → Option ℕ
parse_number modulus val = elim (strip_prefix (codes "0x") val) [
  | some hex ↦ from_str_radix modulus 16 hex
  | none ↦ from_str_radix modulus 10 val
]

unfoldable pub parse_opt_level : Bytes → Option OptLevel
parse_opt_level v =
    if bytes_beq v (codes "n")
    then some level_none
    else if bytes_beq v (codes "s")
    then some speed
    else if bytes_beq v (codes "ss")
    then some speed_and_size
    else none

unfoldable pub parse_bool : Bytes → Option Bool
parse_bool val =
    if bytes_beq val (codes "y") || bytes_beq val (codes "yes") || bytes_beq val (codes "true")
    then some true
    else if bytes_beq val (codes "n") || bytes_beq val (codes "no") || bytes_beq val (codes "false")
    then some false
    else none

unfoldable pub parse_regalloc : Bytes → Option RegallocAlgorithm
parse_regalloc val =
    if bytes_beq val (codes "backtracking")
    then some backtracking
    else if bytes_beq val (codes "single-pass")
    then some single_pass
    else none

unfoldable pub parse_value : OptKind → Bytes → Option OptValue
unfolding parse_number parse_opt_level parse_bool parse_regalloc
parse_value opt_level v = Option.map level (parse_opt_level v)
parse_value regalloc v = Option.map algorithm (parse_regalloc v)
parse_value boolean v = Option.map flag (parse_bool v)
parse_value u32 v = Option.map number (parse_number (2 ^ 32) v)
parse_value u64 v = Option.map number (parse_number (2 ^ 64) v)
parse_value usize v = Option.map number (parse_number (2 ^ 64) v)

abbrev pub OptimizeOpts : Type 0
OptimizeOpts = Assoc Bytes OptValue

-- The value that one item gives to its field; `none` for an unknown name or a bad value.
unfoldable pub item_value : Bytes × Bytes → Option OptValue
item_value (name, text) = elim (lookup name opt_fields) [
  | none ↦ none
  | some kind ↦ parse_value kind text
]

-- `config`, with the options that were set before an item failed.
unfoldable pub config : List (Bytes × Bytes) → OptimizeOpts → Bool × OptimizeOpts
config [] opts = (true, opts)
config (item ∷ items) opts = elim (item_value item) [
  | none ↦ (false, opts)
  | some v ↦ config items (insert item.0 v opts)
]

-- `optimize_options` of bls-runtime/src/config.rs, over the entries of the JSON object and
-- `json::stringify`; its `map` builds each pair from the key alone.
unfoldable pub optimize_options :
    {Json : Type 0} → (Bytes → Bytes) → List (Bytes × Json) → Option OptimizeOpts
unfolding config
optimize_options stringify entries =
    let r = config (map (λ item. (item.0, stringify item.0)) entries) [] in
    if r.0 then some r.1 else none
