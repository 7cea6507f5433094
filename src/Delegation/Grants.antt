-- ===== src/Delegation/Grants.antt =====
-- `apply_owner_delegation_manifest` of src/bridge_db/owner_delegation.py, on a validated manifest.
-- Its transaction is given back as it was where an item is refused.
use bridge_db.Prelude.{
  ℕ, suc, String, Bool, ◌&&◌, not, Option, none, some, List, [], ◌∷◌, ◌++◌, find, ◌==◌, nat_eq,
  string_eq, if◌then◌else◌,
}
use bridge_db.Models.{Caller, caller_eq}
use bridge_db.Errors.{delegation_error}
use bridge_db.Exec.{Exec, Result, ok, err, pure, raise, lift, ◌>>=◌}
use bridge_db.Delegation.Resources.{
  ResourceType, resource_type_eq, Activity, Refusal, Codec, Image, original_owner, resource_sha256,
  owner_resource_snapshot, is_actionable,
}

-- owner_delegations; delegated_by is 'operator-cli', and (resource_type, resource_id) is unique
pub record OwnerGrant : Type 0 where
  pub id : ℕ
  pub resource_type : ResourceType
  pub resource_id : ℕ
  pub original_owner : Caller
  pub delegated_to : Caller
  pub resource_sha256 : String
  pub authorization_reason : String
  pub authorization_ref : String

-- owner_delegation_consumptions; the primary key is delegation_id
pub record Consumption : Type 0 where
  pub delegation_id : ℕ
  pub actor : Caller
  pub action : String
  pub result_sha256 : String

pub record Tables : Type 0 where
  pub activities : List Activity
  pub refusals : List Refusal
  pub grants : List OwnerGrant
  pub next_id : ℕ  -- AUTOINCREMENT
  pub consumptions : List Consumption

pub record Item : Type 0 where
  pub resource_type : ResourceType
  pub resource_id : ℕ
  pub original_owner : Caller
  pub resource_sha256 : String

pub record Manifest : Type 0 where
  pub delegated_to : Caller
  pub authorization_reason : String
  pub authorization_ref : String
  pub resources : List Item

pub record Applied : Type 0 where
  pub inserted : List ℕ
  pub replayed : List ℕ

-- WHERE resource_type = ? AND resource_id = ?
abbrev pub grants_resource : ResourceType → ℕ → OwnerGrant → Bool
grants_resource type id g = g.resource_type == type && g.resource_id == id

module _ (codec : Codec) (manifest : Manifest) where
  abbrev pub new_grant : ℕ → Item → OwnerGrant
  new_grant id item = record {
    id = id;
    resource_type = item.resource_type;
    resource_id = item.resource_id;
    original_owner = item.original_owner;
    delegated_to = manifest.delegated_to;
    resource_sha256 = item.resource_sha256;
    authorization_reason = manifest.authorization_reason;
    authorization_ref = manifest.authorization_ref;
  }

  -- all of `expected`
  unfoldable pub is_expected : Item → OwnerGrant → Bool
  is_expected item g =
      g.original_owner == item.original_owner
      && g.delegated_to == manifest.delegated_to
      && g.resource_sha256 == item.resource_sha256
      && g.authorization_reason == manifest.authorization_reason
      && g.authorization_ref == manifest.authorization_ref

  abbrev pub inserted_tables : Item → Tables → Tables
  inserted_tables item t = record t {
    grants = t.grants ++ new_grant t.next_id item ∷ [];
    next_id = suc t.next_id;
  }

  abbrev pub insert_grant : Item → Applied → Exec Tables Applied
  insert_grant item a t =
      (ok (record a { inserted = a.inserted ++ t.next_id ∷ [] }), inserted_tables item t)

  abbrev pub replay : Item → Applied → Option OwnerGrant → Exec Tables Applied
  replay item a none = insert_grant item a
  replay item a (some g) =
      if is_expected item g
      then pure (record a { replayed = a.replayed ++ g.id ∷ [] })
      else raise (delegation_error "delegation.resource_already_delegated")

  abbrev pub find_grant : Item → Tables → Option OwnerGrant
  find_grant item t = find (grants_resource item.resource_type item.resource_id) t.grants

  abbrev pub grant_resource : Item → Applied → Exec Tables Applied
  grant_resource item a t = replay item a (find_grant item t) t

  -- The image is still the one that the manifest names, and its obligation is open.
  unfoldable pub is_current : Item → Image → Bool
  is_current item image =
      original_owner image == item.original_owner
      && resource_sha256 codec image == item.resource_sha256

  abbrev pub grant_image : Item → Applied → Image → Exec Tables Applied
  grant_image item a image =
      if not (is_current item image)
      then raise (delegation_error "delegation.resource_changed")
      else if not (is_actionable image)
      then raise (delegation_error "delegation.resource_not_actionable")
      else grant_resource item a

  abbrev pub observed : Item → Tables → Result Image
  observed item t =
      owner_resource_snapshot codec t.activities t.refusals item.resource_type item.resource_id

  abbrev pub apply_item : Item → Applied → Exec Tables Applied
  apply_item item a t = (lift (observed item t) >>= grant_image item a) t

  unfoldable pub apply_items : List Item → Applied → Exec Tables Applied
  unfolding owner_resource_snapshot resource_sha256 is_actionable is_expected is_current
  apply_items [] a = pure a
  apply_items (item ∷ items) a = apply_item item a >>= apply_items items

  -- except Exception: await db.rollback(); raise
  abbrev pub all_or_nothing : Tables → Result Applied × Tables → Result Applied × Tables
  all_or_nothing before (ok a, t) = (ok a, t)
  all_or_nothing before (err e, t) = (err e, before)

  unfoldable pub apply_owner_delegation_manifest : Exec Tables Applied
  unfolding apply_items
  apply_owner_delegation_manifest t =
      all_or_nothing t (apply_items manifest.resources (record { inserted = []; replayed = [] }) t)
