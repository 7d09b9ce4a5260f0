-- ===== src/Drivers/Finding.antt =====
-- Which driver an address finds.
use bls_runtime.Prelude.{◌≡◌, refl, ◌∙◌, Bool, true, some, List, [], ◌∷◌, Bytes, All, if◌then◌else◌}
use bls_runtime.Prelude.Assoc.{Assoc, lookup, lookup-insert}
use bls_runtime.Prelude.Text.{bytes_eq, bytes_beq}
use bls_runtime.Multiaddr.{ok, Indicator, schema}
use bls_runtime.Multiaddr.Reading.{IsSegment, IsSchema, url, values, parse-url}
use bls_runtime.Drivers.{insert_driver, find_driver}

schema-values :
    (from_utf8 : Bytes → Bool) (paths : List Indicator) (sch : Bytes) (vs : List Bytes)
    → values (record { paths = paths }) ≡ sch ∷ vs
    → from_utf8 sch ≡ true
    → schema from_utf8 (record { paths = paths }) ≡ ok sch
unfolding schema
schema-values from_utf8 [] sch vs h valid = absurd (cc)
schema-values from_utf8 (p ∷ ps) sch vs h valid =
    let head : p.val ≡ sch = cc in rw (head, valid) refl

module _ {D : Type 0} (name : D → Bytes) (to_lowercase : Bytes → Bytes)
    (from_utf8 : Bytes → Bool) where
  find_driver-url :
      (sch : Bytes) (vs : List Bytes) (drivers : Assoc Bytes D)
      → IsSchema sch
      → All IsSegment vs
      → from_utf8 sch ≡ true
      → find_driver name to_lowercase from_utf8 (url sch vs) drivers
        ≡ lookup (to_lowercase sch) drivers
  unfolding find_driver
  find_driver-url sch vs drivers hs h valid =
      let (m, parsed, same) = parse-url sch vs hs h in
      rw (parsed, schema-values from_utf8 m.paths sch vs same valid, find_driver) refl

  -- Behind `insert_driver` an address with a schema, valid as a text, and segments finds the new
  -- driver exactly when its schema is the driver's name up to case; every other one finds what
  -- it found before.
  pub find_driver-insert_driver :
      (d : D) (sch : Bytes) (vs : List Bytes) (drivers : Assoc Bytes D)
      → IsSchema sch
      → All IsSegment vs
      → from_utf8 sch ≡ true
      → find_driver name to_lowercase from_utf8
          (url sch vs)
          (insert_driver name to_lowercase from_utf8 d drivers)
        ≡ (if bytes_beq (to_lowercase (name d)) (to_lowercase sch)
            then some d
            else find_driver name to_lowercase from_utf8 (url sch vs) drivers)
  unfolding insert_driver
  find_driver-insert_driver d sch vs drivers hs h valid =
      find_driver-url sch vs (insert_driver name to_lowercase from_utf8 d drivers) hs h valid
      ∙ lookup-insert (to_lowercase (name d)) (to_lowercase sch) d drivers
      ∙ rw (find_driver-url sch vs drivers hs h valid) refl
