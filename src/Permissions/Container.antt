-- ===== src/Permissions/Container.antt =====
-- What a run may do after its configuration is applied, and what a request does.
use mathlib.Core.Option.{some-injective}
use bls_runtime.Prelude.{
  ◌≡◌, refl, ap, Bool, true, false, ◌||◌, Option, none, some, arith, if◌then◌else◌,
}
use bls_runtime.Config.{PermissionGrant, all, PermissionsConfig}
use bls_runtime.Permissions.{
  into_options, UnaryPermission, Permissions, Library, grant_if, deny_if, set_flags,
  set_permissions_config,
}

unfoldable pub grants_all : Option PermissionGrant → Bool
grants_all (some all) = true
grants_all _ = false

-- The two flags of a permission: set by a global grant in the configuration, and else as before.
pub record FlagsFrom {ℓ} {R : Type ℓ} (allow deny : Option PermissionGrant)
    (p q : UnaryPermission R) : Type ℓ where
  pub granted_flag : q.granted_global ≡ (grants_all allow || p.granted_global)
  pub denied_flag : q.flag_denied_global ≡ (grants_all deny || p.flag_denied_global)
  pub rest_kept : q.rest ≡ p.rest

pub record ConfiguredFrom {ℓ} {R : Type ℓ} (c : PermissionsConfig) (p q : Permissions R)
    : Type ℓ where
  pub read_flags : FlagsFrom c.allow_read c.deny_read p.read q.read
  pub write_flags : FlagsFrom c.allow_write c.deny_write p.write q.write
  pub net_flags : FlagsFrom c.allow_net c.deny_net p.net q.net
  pub others_kept : q.others ≡ p.others

flags-FlagsFrom {ℓ} :
    {R : Type ℓ} (allow deny : Option PermissionGrant) (p : UnaryPermission R)
    → FlagsFrom allow deny p (grant_if allow (deny_if deny p))
unfolding grants_all
flags-FlagsFrom allow deny p = record {
  granted_flag = ground arith;
  denied_flag = ground arith;
  rest_kept = ground arith;
}

set_flags-ConfiguredFrom {ℓ} :
    {R : Type ℓ} (c : PermissionsConfig) (p : Permissions R) → ConfiguredFrom c p (set_flags c p)
unfolding set_flags
set_flags-ConfiguredFrom c p = record {
  read_flags = flags-FlagsFrom c.allow_read c.deny_read p.read;
  write_flags = flags-FlagsFrom c.allow_write c.deny_write p.write;
  net_flags = flags-FlagsFrom c.allow_net c.deny_net p.net;
  others_kept = refl;
}

module _ (lib : Library) where
  open lib use {Rest, allow_all, from_options, query, revoke}

  -- What the flags are set on: every permission, or what the library reads from the options.
  unfoldable pub base : PermissionsConfig → Option (Permissions Rest)
  base c = if c.allow_all then some allow_all else from_options (into_options c)

  abbrev outcome :
      PermissionsConfig
      → Permissions Rest
      → Bool
      → Option (Permissions Rest)
      → Bool × Permissions Rest
  outcome c held b o =
      if b
      then (true, set_flags c allow_all)
      else (elim o [ none ↦ (false, held) | some r ↦ (true, set_flags c r) ])

  -- The configuration replaces the permissions of the run by its base with the six global grants
  -- and denials on top, each set exactly for its own field; where the library refuses the options
  -- the call fails and the permissions of the run stay.
  pub set_permissions_config_lem :
      (c : PermissionsConfig) (held : Permissions Rest)
      → ((p : Permissions Rest)
          → base c ≡ some p
          → (q : Permissions Rest) × (set_permissions_config lib c held ≡ (true, q))
            × ConfiguredFrom c p q)
        × (base c ≡ none → set_permissions_config lib c held ≡ (false, held))
  unfolding base set_permissions_config
  set_permissions_config_lem c held = (
    λ p h. (
      set_flags c p,
      configured c.allow_all (from_options (into_options c)) p h,
      set_flags-ConfiguredFrom c p,
    ),
    λ h. refused c.allow_all (from_options (into_options c)) h,
  )
    where
      configured :
          (b : Bool) (o : Option (Permissions Rest)) (p : Permissions Rest)
          → (if b then some allow_all else o) ≡ some p
          → outcome c held b o ≡ (true, set_flags c p)
      configured true o p h =
          ap {B = Bool × Permissions Rest} (λ r. (true, set_flags c r)) (some-injective _ _ h)
      configured false none p h = absurd (cc)
      configured false (some r) p h =
          ap {B = Bool × Permissions Rest} (λ x. (true, set_flags c x)) (some-injective _ _ h)

      refused :
          (b : Bool) (o : Option (Permissions Rest))
          → (if b then some allow_all else o) ≡ none
          → outcome c held b o ≡ (false, held)
      refused true o h = absurd (cc)
      refused false none h = refl
      refused false (some r) h = absurd (cc)
