-- ===== src/Delegation/Resources.antt =====
-- The resources that can be delegated, and `owner_resource_snapshot` of
-- src/bridge_db/owner_delegation.py: a resource's image and its digest.
use bridge_db.Prelude.{
  ℕ, String, ◌≡◌, ◌↔◌, Bool, true, false, ◌||◌, not, Option, none, some, List, [], ◌∷◌, map, arith,
  find, contains, is_some, Eq, ◌==◌, nat_eq, string_eq, if◌then◌else◌,
}
use bridge_db.Models.{Caller, caller_name}
use bridge_db.Json.{Json, Items, Fields, field, end, null, int, string, array, object, nil, cons}
use bridge_db.Errors.{delegation_error}
use bridge_db.Exec.{Result, ok, err}

pub data ResourceType : Type 0 where
  activity_disposition snapshot_refusal : ResourceType

abbrev pub resource_type_beq : ResourceType → ResourceType → Bool
resource_type_beq activity_disposition activity_disposition = true
resource_type_beq snapshot_refusal snapshot_refusal = true
resource_type_beq _ _ = false

pub resource_type_beq_iff : (a b : ResourceType) → (resource_type_beq a b ≡ true) ↔ (a ≡ b)
resource_type_beq_iff a b = ground arith

instance abbrev pub resource_type_eq : Eq ResourceType
resource_type_eq = record { beq = resource_type_beq; beq_iff = resource_type_beq_iff }

abbrev pub resource_type_name : ResourceType → String
resource_type_name activity_disposition = "activity_disposition"
resource_type_name snapshot_refusal = "snapshot_refusal"

-- The columns of activity_log that an image shows.
pub record Activity : Type 0 where
  pub id : ℕ
  pub source : Caller
  pub created_at : String
  pub project_name : String
  pub summary : String
  pub tags : String
  pub canonical_key : Option String
  pub sync_disposition : Option String
  pub sync_disposition_by : Option Caller
  pub synced_at : Option String
  pub sync_downstream_system : Option String
  pub sync_downstream_ref : Option String
  pub sync_policy_ref : Option String
  pub sync_reason : Option String
  pub sync_note : Option String

-- snapshot_refusals
pub record Refusal : Type 0 where
  pub id : ℕ
  pub caller : Caller
  pub system : Caller
  pub snapshot_family : String
  pub snapshot_date : String
  pub reason_code : String
  pub retained_count : ℕ
  pub retention_limit : ℕ
  pub payload_sha256 : String
  pub acknowledgement_state : Option String
  pub acknowledged_by : Option Caller
  pub next_state : String
  pub created_at : String
  pub acknowledged_at : Option String

-- What the code calls of Python: the digest of a text, `json.dumps` as `_canonical_json` calls it,
-- `json.loads` (none where it raises), and `str.upper`.
pub record Codec : Type 0 where
  pub sha256 : String → String
  pub canonical_json : Json → String
  pub loads : String → Option Json
  pub upper : String → String

pub data Image : Type 0 where
  activity_image : Activity → List String → Image  -- the row and its tags
  refusal_image : Refusal → Image

abbrev pub original_owner : Image → Caller
original_owner (activity_image a tags) = a.source
original_owner (refusal_image r) = r.caller

abbrev text_or_null : Option String → Json
text_or_null none = null
text_or_null (some t) = string t

abbrev caller_or_null : Option Caller → Json
caller_or_null none = null
caller_or_null (some c) = string (caller_name c)

abbrev tag_items : List String → Items
tag_items [] = nil
tag_items (t ∷ ts) = cons (string t) (tag_items ts)

module _ (codec : Codec) where
  unfoldable pub image_fields : Image → Fields
  image_fields (activity_image a tags) = field "resource_type" (string "activity_disposition") (
      field "resource_id" (int a.id) (
        field "original_owner" (string (caller_name a.source)) (
          field "created_at" (string a.created_at) (
            field "project_name" (string a.project_name) (
              field "summary_sha256" (string (codec.sha256 a.summary)) (
                field "tags" (array (tag_items tags)) (
                  field "canonical_key" (text_or_null a.canonical_key) (
                    field "sync_disposition" (text_or_null a.sync_disposition) (
                      field "sync_disposition_by" (caller_or_null a.sync_disposition_by) (
                        field "synced_at" (text_or_null a.synced_at) (
                          field "sync_downstream_system" (text_or_null a.sync_downstream_system) (
                            field "sync_downstream_ref" (text_or_null a.sync_downstream_ref) (
                              field "sync_policy_ref" (text_or_null a.sync_policy_ref) (
                                field "sync_reason" (text_or_null a.sync_reason)
                                  (field "sync_note" (text_or_null a.sync_note) end)))))))))))))))
  image_fields (refusal_image r) = field "resource_type" (string "snapshot_refusal") (
      field "resource_id" (int r.id) (
        field "original_owner" (string (caller_name r.caller)) (
          field "system" (string (caller_name r.system)) (
            field "snapshot_family" (string r.snapshot_family) (
              field "snapshot_date" (string r.snapshot_date) (
                field "reason_code" (string r.reason_code) (
                  field "retained_count" (int r.retained_count) (
                    field "retention_limit" (int r.retention_limit) (
                      field "payload_sha256" (string r.payload_sha256) (
                        field "acknowledgement_state" (text_or_null r.acknowledgement_state) (
                          field "acknowledged_by" (caller_or_null r.acknowledged_by) (
                            field "next_state" (string r.next_state) (
                              field "created_at" (string r.created_at) (
                                field "acknowledged_at" (text_or_null r.acknowledged_at)
                                  end))))))))))))))

  -- _sha256_json of an image
  unfoldable pub resource_sha256 : Image → String
  unfolding image_fields
  resource_sha256 image = codec.sha256 (codec.canonical_json (object (image_fields image)))

  -- The list of texts that the tags are, if they are one.
  abbrev pub all_texts : Items → Option (List String)
  all_texts nil = some []
  all_texts (cons (string t) rest) = elim (all_texts rest) [ none ↦ none | some ts ↦ some (t ∷ ts) ]
  all_texts (cons _ rest) = none

  abbrev pub tags_of : Option Json → Option (List String)
  tags_of (some (array items)) = all_texts items
  tags_of _ = none

  abbrev pub is_shipped : List String → Bool
  is_shipped tags = contains (map codec.upper tags) "SHIPPED"

  abbrev pub shipped_image : Activity → Option (List String) → Result Image
  shipped_image a none = err (delegation_error "delegation.resource_invalid")
  shipped_image a (some tags) =
      if is_shipped tags
      then ok (activity_image a tags)
      else err (delegation_error "delegation.resource_not_shipped")

  abbrev pub activity_of : Option Activity → Result Image
  activity_of none = err (delegation_error "delegation.resource_not_found")
  activity_of (some a) = shipped_image a (tags_of (codec.loads a.tags))

  abbrev pub refusal_of : Option Refusal → Result Image
  refusal_of none = err (delegation_error "delegation.resource_not_found")
  refusal_of (some r) = ok (refusal_image r)

  -- `owner_resource_snapshot`
  unfoldable pub owner_resource_snapshot :
      List Activity → List Refusal → ResourceType → ℕ → Result Image
  owner_resource_snapshot activities refusals activity_disposition id =
      activity_of (find (λ (a : Activity). a.id == id) activities)
  owner_resource_snapshot activities refusals snapshot_refusal id =
      refusal_of (find (λ (r : Refusal). r.id == id) refusals)

-- `_assert_resource_actionable`: whether the owner's obligation is open
unfoldable pub is_actionable : Image → Bool
is_actionable (activity_image a tags) =
    not (is_some a.sync_disposition || contains tags "PROCESSED")
is_actionable (refusal_image r) = not (is_some r.acknowledgement_state)
