-- ===== src/Witnesses/Delegations.antt =====
-- A delegation of one activity on concrete data.
use bridge_db.Prelude.{String, refl, some, none, [], ◌∷◌, strip_text, is_space}
use bridge_db.Models.{Caller}
use bridge_db.Json.{Fields, string, int, array, object, cons, nil, field, end, get}
use bridge_db.Delegation.Resources.{
  Codec, Activity, activity_disposition, owner_resource_snapshot, resource_sha256, image_fields,
}
use bridge_db.Delegation.Grants.{
  OwnerGrant, Tables, Item, Manifest, apply_owner_delegation_manifest,
}
use bridge_db.Delegation.Atomic.{Outcome, apply_owner_delegation_manifest-Outcome}
use bridge_db.Delegation.Use.{
  Claim, Use, is_for, is_sha256, resolve_owner_delegation, consume_owner_delegation,
}
use bridge_db.Delegation.Use.Once.{
  Granted, resolve_owner_delegation-Granted, Consumed, consume_owner_delegation-Consumed,
}
use bridge_db.Prelude.{All}
use bridge_db.Delegation.Resources.{is_actionable}
use bridge_db.Delegation.Grants.{is_current, is_expected, apply_items}
use bridge_db.Delegation.Use.Granting.{Resolvable, apply-resolve}
use bridge_db.Delegation.Manifest.{load_owner_delegation_manifest}
use bridge_db.Delegation.Manifest.Sound.{Sound, load_owner_delegation_manifest-Sound}

abbrev hash : String
hash = "0123456789abcdef0123456789abcdef0123456789abcdef0123456789abcdef"

abbrev codec : Codec
codec = record {
  sha256 = λ s. hash;
  canonical_json = λ j. "";
  loads = λ s. some (array (cons (string "SHIPPED") nil));
  upper = λ s. s;
}

abbrev activity : Activity
activity = record {
  id = 7;
  source = Caller.cc;
  created_at = "2026-01-01T00:00:00Z";
  project_name = "bridge-db";
  summary = "released";
  tags = "[\"SHIPPED\"]";
  canonical_key = none;
  sync_disposition = none;
  sync_disposition_by = none;
  synced_at = none;
  sync_downstream_system = none;
  sync_downstream_ref = none;
  sync_policy_ref = none;
  sync_reason = none;
  sync_note = none;
}

abbrev tables : Tables
tables = record {
  activities = activity ∷ [];
  refusals = [];
  grants = [];
  next_id = 1;
  consumptions = [];
}

abbrev mapping : Fields
mapping = field "schema" (string "BridgeOwnerDelegationManifestV1") (
    field "delegated_to" (string "codex") (
      field "authorization_reason" (string " owner away ") (
        field "authorization_ref" (string "ticket-1") (
          field "resources"
            (array (
              cons
                (object (
                  field "resource_type" (string "activity_disposition") (
                    field "resource_id" (int 7) (
                      field "original_owner" (string "cc")
                        (field "resource_sha256" (string hash) end)))))
                nil))
            end))))

abbrev item : Item
item = record {
  resource_type = activity_disposition;
  resource_id = 7;
  original_owner = Caller.cc;
  resource_sha256 = hash;
}

abbrev manifest : Manifest
manifest = record {
  delegated_to = Caller.codex;
  authorization_reason = "owner away";
  authorization_ref = "ticket-1";
  resources = item ∷ [];
}

load_owner_delegation_manifest-Sound_example : Sound manifest
unfolding load_owner_delegation_manifest get is_sha256 strip_text is_space
load_owner_delegation_manifest-Sound_example =
    load_owner_delegation_manifest-Sound mapping manifest refl

apply_owner_delegation_manifest-Outcome_example :
    Outcome codec manifest tables
      (apply_owner_delegation_manifest codec manifest tables).0
      (apply_owner_delegation_manifest codec manifest tables).1
apply_owner_delegation_manifest-Outcome_example =
    apply_owner_delegation_manifest-Outcome codec manifest tables

abbrev grant : OwnerGrant
grant = record {
  id = 1;
  resource_type = activity_disposition;
  resource_id = 7;
  original_owner = Caller.cc;
  delegated_to = Caller.codex;
  resource_sha256 = hash;
  authorization_reason = "owner away";
  authorization_ref = "ticket-1";
}

abbrev delegated : Tables
delegated = record tables { grants = grant ∷ [] }

abbrev asked : Claim
asked = record {
  resource_type = activity_disposition;
  resource_id = 7;
  original_owner = Caller.cc;
  delegated_to = Caller.codex;
}

resolve_owner_delegation-Granted_example :
    Granted codec asked delegated (record { grant = grant; consumption = none })
unfolding resolve_owner_delegation owner_resource_snapshot resource_sha256 image_fields is_for
resolve_owner_delegation-Granted_example =
    resolve_owner_delegation-Granted codec asked delegated
      (record { grant = grant; consumption = none }) refl

abbrev disposal : Use
disposal = record {
  delegation_id = 1;
  actor = Caller.codex;
  action = "activity_disposition";
  result_sha256 = hash;
}

consume_owner_delegation-Consumed_example :
    Consumed disposal delegated (consume_owner_delegation disposal delegated).1
unfolding consume_owner_delegation is_sha256 strip_text is_space
consume_owner_delegation-Consumed_example =
    consume_owner_delegation-Consumed disposal delegated refl

apply-resolve_example :
    All
      (Resolvable codec manifest (apply_owner_delegation_manifest codec manifest tables).1)
      (item ∷ [])
unfolding apply_owner_delegation_manifest apply_items owner_resource_snapshot resource_sha256
    image_fields is_actionable is_current is_expected
apply-resolve_example =
    apply-resolve codec manifest tables (record { inserted = 1 ∷ []; replayed = [] }) refl
