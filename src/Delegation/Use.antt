-- ===== src/Delegation/Use.antt =====
-- `resolve_owner_delegation` and `consume_owner_delegation` of src/bridge_db/owner_delegation.py.
pub mod Once
pub mod Granting
use bridge_db.Prelude.{
  ℕ, String, Bool, true, false, ◌&&◌, ◌||◌, not, Option, none, some, List, [], ◌∷◌, ◌++◌, leb,
  codes, strip_text, is_space, length, every, exists, find, is_some, is_none, ◌==◌, ◌!=◌, nat_eq,
  string_eq, list_eq, if◌then◌else◌,
}
use bridge_db.Models.{Caller, caller_eq}
use bridge_db.Errors.{delegation_error}
use bridge_db.Exec.{Exec, Result, ok, err, pure, raise, lift, ◌>>=◌, ◌>>◌}
use bridge_db.Delegation.Resources.{
  ResourceType, resource_type_eq, Codec, Image, original_owner, resource_sha256,
  owner_resource_snapshot,
}
use bridge_db.Delegation.Grants.{OwnerGrant, Consumption, Tables, grants_resource}

-- The arguments of `resolve_owner_delegation`.
pub record Claim : Type 0 where
  pub resource_type : ResourceType
  pub resource_id : ℕ
  pub original_owner : Caller
  pub delegated_to : Caller

-- A grant with its consumption, where there is one; its state is 'consumed' exactly then.
pub record Resolved : Type 0 where
  pub grant : OwnerGrant
  pub consumption : Option Consumption

abbrev pub consumes : ℕ → Consumption → Bool
consumes id c = c.delegation_id == id

module _ (codec : Codec) (claim : Claim) where
  -- the digests that a grant accepts
  abbrev pub accepts : String → OwnerGrant → Option Consumption → Bool
  accepts digest g none = digest == g.resource_sha256
  accepts digest g (some c) = digest == g.resource_sha256 || digest == c.result_sha256

  unfoldable pub is_for : Image → OwnerGrant → Bool
  is_for image g =
      g.original_owner == claim.original_owner
      && original_owner image == claim.original_owner
      && g.delegated_to == claim.delegated_to

  abbrev pub resolve_grant : Image → OwnerGrant → Option Consumption → Result (Option Resolved)
  resolve_grant image g c =
      if not (is_for image g)
      then err (delegation_error "delegation.resource_changed")
      else if not (accepts (resource_sha256 codec image) g c)
      then err (delegation_error "delegation.resource_changed")
      else ok (some (record { grant = g; consumption = c }))

  abbrev pub resolve_row : Image → Option OwnerGrant → List Consumption → Result (Option Resolved)
  resolve_row image none consumptions = ok none
  resolve_row image (some g) consumptions =
      resolve_grant image g (find (consumes g.id) consumptions)

  abbrev pub resolve_image : Tables → Result Image → Result (Option Resolved)
  resolve_image t (err e) = err e
  resolve_image t (ok image) =
      resolve_row image (find (grants_resource claim.resource_type claim.resource_id) t.grants)
        t.consumptions

  unfoldable pub resolve_owner_delegation : Tables → Result (Option Resolved)
  unfolding is_for resource_sha256 owner_resource_snapshot
  resolve_owner_delegation t =
      resolve_image t (
        owner_resource_snapshot codec t.activities t.refusals claim.resource_type claim.resource_id)

-- character in "0123456789abcdef"
abbrev pub is_hex : ℕ → Bool
is_hex c = (leb 48 c && leb c 57) || (leb 97 c && leb c 102)

-- _is_sha256, of a text
unfoldable pub is_sha256 : String → Bool
is_sha256 value = length (codes value) == 64 && every is_hex (codes value)

-- The arguments of `consume_owner_delegation`.
pub record Use : Type 0 where
  pub delegation_id : ℕ
  pub actor : Caller
  pub action : String
  pub result_sha256 : String

module _ (u : Use) where
  abbrev pub is_valid : Bool
  is_valid = strip_text is_space u.action != "" && is_sha256 u.result_sha256

  abbrev pub use_receipt : Consumption
  use_receipt = record {
    delegation_id = u.delegation_id;
    actor = u.actor;
    action = strip_text is_space u.action;
    result_sha256 = u.result_sha256;
  }

  -- a primary key that is taken, or a grant that is not there
  abbrev pub violates : Tables → Bool
  violates t =
      exists (consumes u.delegation_id) t.consumptions
      || not (exists (λ (g : OwnerGrant). g.id == u.delegation_id) t.grants)

  abbrev pub consumed_tables : Tables → Tables
  consumed_tables t = record t { consumptions = t.consumptions ++ use_receipt ∷ [] }

  abbrev pub insert_consumption : Exec Tables (Unit {0})
  insert_consumption t =
      if violates t
      then (err (delegation_error "delegation.already_consumed"), t)
      else (ok tt, consumed_tables t)

  unfoldable pub consume_owner_delegation : Exec Tables (Unit {0})
  unfolding is_sha256 strip_text is_space
  consume_owner_delegation =
      if not is_valid
      then raise (delegation_error "delegation.consumption_invalid")
      else insert_consumption
