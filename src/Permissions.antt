-- ===== src/Permissions.antt =====
-- crates/wasi-common/src/blockless/permissions.rs and the options of config.rs: how a
-- configuration becomes the permissions of a run. The container and its rules belong to the
-- library bls_permissions: they are the record `Library` here.
pub mod Parser
pub mod Container
use bls_runtime.Prelude.{
  ℕ, ◌≡◌, ◌≢◌, Bool, true, false, Option, none, some, List, [], ◌∷◌, Bytes, if◌then◌else◌,
}
use bls_runtime.Config.{PermissionGrant, all, list, PermissionsConfig}

-- `PermissionsOptions`, with the fields that the conversion sets.
pub record PermissionsOptions : Type 0 where
  pub allow_read : Option (List Bytes)
  pub allow_write : Option (List Bytes)
  pub deny_read : Option (List Bytes)
  pub deny_write : Option (List Bytes)
  pub allow_net : Option (List Bytes)
  pub deny_net : Option (List Bytes)
  pub prompt : Bool
  pub allow_all : Bool

-- `set_perm!`, over the default of the field, which is `None`.
unfoldable pub set_perm : Option PermissionGrant → Option (List Bytes)
set_perm none = none
set_perm (some all) = none
set_perm (some (list allow)) = some allow

unfoldable pub into_options : PermissionsConfig → PermissionsOptions
unfolding set_perm
into_options c = record {
  allow_read = set_perm c.allow_read;
  allow_write = set_perm c.allow_write;
  deny_read = set_perm c.deny_read;
  deny_write = set_perm c.deny_write;
  allow_net = set_perm c.allow_net;
  deny_net = set_perm c.deny_net;
  prompt = true;
  allow_all = c.allow_all;
}

-- A unary permission with the two flags that `set_permissions_config` writes; `rest` is what else
-- the library keeps in it.
pub record UnaryPermission {ℓ} (R : Type ℓ) : Type ℓ where
  pub granted_global : Bool
  pub flag_denied_global : Bool
  pub rest : R

pub record Permissions {ℓ} (R : Type ℓ) : Type ℓ where
  pub read : UnaryPermission R
  pub write : UnaryPermission R
  pub net : UnaryPermission R
  pub others : R

pub data PermissionState : Type 0 where
  granted granted_partial prompt denied denied_partial : PermissionState

-- The kinds of permission that a guest can query, revoke and request.
pub data Kind : Type 0 where
  read write net env sys run ffi : Kind

-- A call of the library returns a state, or fails, and leaves the container changed.
abbrev pub Reply : Type 0 → Type 0
Reply C = Option PermissionState × C

pub record Library : Type 1 where
  pub Rest : Type 0
  pub allow_all : Permissions Rest
  pub from_options : PermissionsOptions → Option (Permissions Rest)
  pub query : Kind → Option Bytes → Permissions Rest → Reply (Permissions Rest)
  pub revoke : Kind → Option Bytes → Permissions Rest → Reply (Permissions Rest)
  pub request : Kind → Option Bytes → Permissions Rest → Reply (Permissions Rest)

abbrev pub is_all : Option PermissionGrant → Bool
is_all (some all) = true
is_all _ = false

abbrev pub deny_if {ℓ} :
    {R : Type ℓ} → Option PermissionGrant → UnaryPermission R → UnaryPermission R
deny_if g p = if is_all g then record p { flag_denied_global = true } else p

abbrev pub grant_if {ℓ} :
    {R : Type ℓ} → Option PermissionGrant → UnaryPermission R → UnaryPermission R
grant_if g p = if is_all g then record p { granted_global = true } else p

-- the six flags that are set behind the library's reading of the options
unfoldable pub set_flags {ℓ} : {R : Type ℓ} → PermissionsConfig → Permissions R → Permissions R
set_flags c p = record p {
  read = grant_if c.allow_read (deny_if c.deny_read p.read);
  write = grant_if c.allow_write (deny_if c.deny_write p.write);
  net = grant_if c.allow_net (deny_if c.deny_net p.net);
}

module _ (lib : Library) where
  open lib use {Rest, allow_all, from_options, query, revoke, request}

  -- The result says whether the call succeeded; a failure leaves the container as it was.
  unfoldable pub set_permissions_config :
      PermissionsConfig → Permissions Rest → Bool × Permissions Rest
  unfolding set_flags into_options
  set_permissions_config c held =
      if c.allow_all then (true, set_flags c allow_all) else (elim (from_options (into_options c)) [
        | none ↦ (false, held)
        | some p ↦ (true, set_flags c p)
      ])

  -- `query_read` .. `query_ffi`
  unfoldable pub query_kind : Kind → Option Bytes → Permissions Rest → Reply (Permissions Rest)
  query_kind k arg held = query k arg held

  -- `revoke_read` .. `revoke_ffi`
  unfoldable pub revoke_kind : Kind → Option Bytes → Permissions Rest → Reply (Permissions Rest)
  revoke_kind k arg held = revoke k arg held

  -- `request_read` .. `request_ffi`, each with the call that its body makes.
  unfoldable pub request_kind : Kind → Option Bytes → Permissions Rest → Reply (Permissions Rest)
  request_kind read arg held = request read arg held
  request_kind write arg held = revoke write arg held
  request_kind net arg held = request net arg held
  request_kind env arg held = request env arg held
  request_kind sys arg held = request sys arg held
  request_kind run arg held = request run arg held
  request_kind ffi arg held = request ffi arg held
