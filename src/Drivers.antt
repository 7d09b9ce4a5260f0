-- ===== src/Drivers.antt =====
-- crates/blockless-drivers/src/lib.rs: the drivers by the schema of their addresses. A driver is of
-- any type with a name; `to_lowercase` and `from_utf8` are the standard library's.
pub mod Finding
pub mod Cgi
pub mod Handles
pub mod Http
pub mod Llm
pub mod Ipfs
use bls_runtime.Prelude.{Bool, Option, none, List, Bytes}
use bls_runtime.Prelude.Assoc.{Assoc, lookup, insert}
use bls_runtime.Prelude.Text.{bytes_eq}
use bls_runtime.Multiaddr.{Result, ok, err, parse, schema}

module _ {D : Type 0} (name : D → Bytes) (to_lowercase : Bytes → Bytes)
    (from_utf8 : Bytes → Bool) where
  unfoldable pub insert_driver : D → Assoc Bytes D → Assoc Bytes D
  insert_driver d drivers = insert (to_lowercase (name d)) d drivers

  unfoldable pub find_driver : Bytes → Assoc Bytes D → Option D
  unfolding parse schema
  find_driver uri drivers = elim (parse uri) [
    | err e ↦ none
    | ok addr ↦ elim (schema from_utf8 addr) [
      | err e ↦ none
      | ok s ↦ lookup (to_lowercase s) drivers
    ]
  ]
