-- ===== src/Delegation/Manifest.antt =====
-- `load_owner_delegation_manifest` of src/bridge_db/owner_delegation.py, from the mapping that
-- `_read_manifest` returns. The digest that the result carries is left out.
pub mod Ordering
pub mod Entries
pub mod Sound
use bridge_db.Prelude.{
  ℕ, suc, ◌+◌, String, Bool, true, false, ◌&&◌, ◌||◌, not, Option, none, some, List, [], ◌∷◌, leb,
  ltb, contains, every, exists, strip_text, is_space, is_some, ◌==◌, ◌!=◌, nat_eq, string_eq,
  if◌then◌else◌,
}
use bridge_db.Models.{Caller, caller_eq}
use bridge_db.Json.{Json, Items, Fields, get, string, int, array, object, nil, cons, end, field}
use bridge_db.Errors.{ToolError, delegation_error}
use bridge_db.Exec.{Result, ok, err, and_then}
use bridge_db.Delegation.Resources.{
  ResourceType, activity_disposition, snapshot_refusal, resource_type_eq,
}
use bridge_db.Delegation.Grants.{Item, Manifest}
use bridge_db.Delegation.Use.{is_sha256}

abbrev pub refused : {A : Type 0} → String → Result A
refused code = err (delegation_error code)

abbrev pub manifest_schema : String
manifest_schema = "BridgeOwnerDelegationManifestV1"

abbrev pub manifest_keys : List String
manifest_keys =
    "schema" ∷ "delegated_to" ∷ "authorization_reason" ∷ "authorization_ref" ∷ "resources" ∷ []

abbrev pub resource_keys : List String
resource_keys = "resource_type" ∷ "resource_id" ∷ "original_owner" ∷ "resource_sha256" ∷ []

-- set(mapping) == set(keys)
abbrev pub only_keys : List String → Fields → Bool
only_keys keys end = true
only_keys keys (field k v rest) = contains keys k && only_keys keys rest

abbrev pub has_keys : List String → Fields → Bool
has_keys keys mapping = only_keys keys mapping && every (λ k. is_some (get mapping k)) keys

-- CALLER_IDS and RESOURCE_TYPES, by their names
abbrev pub caller_named : String → Option Caller
caller_named name =
    if name == "cc"
    then some Caller.cc
    else if name == "codex"
    then some Caller.codex
    else if name == "claude_ai"
    then some Caller.claude_ai
    else if name == "notion_os"
    then some Caller.notion_os
    else if name == "personal_ops"
    then some Caller.personal_ops
    else none

abbrev pub resource_type_named : String → Option ResourceType
resource_type_named name =
    if name == "activity_disposition"
    then some activity_disposition
    else if name == "snapshot_refusal"
    then some snapshot_refusal
    else none

abbrev pub or_refused : {A : Type 0} → String → Option A → Result A
or_refused code none = refused code
or_refused code (some a) = ok a

abbrev pub text_field : String → Option Json → Result String
text_field code (some (string t)) = ok t
text_field code _ = refused code

-- a text that is not blank, stripped
abbrev pub stated : String → String → Result String
stated code t = if strip_text is_space t == "" then refused code else ok (strip_text is_space t)

abbrev pub positive : Option Json → Result ℕ
positive (some (int n)) = if ltb n 1 then refused "delegation.resource_id_invalid" else ok n
positive _ = refused "delegation.resource_id_invalid"

abbrev pub other_owner : Caller → Caller → Result Caller
other_owner delegated_to owner =
    if owner == delegated_to then refused "delegation.original_owner_invalid" else ok owner

abbrev pub digest : String → Result String
digest t = if is_sha256 t then ok t else refused "delegation.resource_sha256_invalid"

abbrev pub make_item : ResourceType → ℕ → Caller → String → Item
make_item type id owner hash = record {
  resource_type = type;
  resource_id = id;
  original_owner = owner;
  resource_sha256 = hash;
}

module _ (delegated_to : Caller) where
  abbrev pub with_hash : ResourceType → ℕ → Caller → String → Result Item
  with_hash type id owner text = and_then (digest text) (λ hash. ok (make_item type id owner hash))

  abbrev pub with_owner : Fields → ResourceType → ℕ → Caller → Result Item
  with_owner f type id named = and_then (other_owner delegated_to named) (λ owner.
      and_then (text_field "delegation.resource_sha256_invalid" (get f "resource_sha256"))
        (with_hash type id owner))

  abbrev pub named_owner : Fields → ResourceType → ℕ → String → Result Item
  named_owner f type id name =
      and_then (or_refused "delegation.original_owner_invalid" (caller_named name))
        (with_owner f type id)

  abbrev pub with_id : Fields → ResourceType → ℕ → Result Item
  with_id f type id =
      and_then (text_field "delegation.original_owner_invalid" (get f "original_owner"))
        (named_owner f type id)

  abbrev pub with_type : Fields → ResourceType → Result Item
  with_type f type = and_then (positive (get f "resource_id")) (with_id f type)

  abbrev pub named_type : Fields → String → Result Item
  named_type f name =
      and_then (or_refused "delegation.resource_type_invalid" (resource_type_named name))
        (with_type f)

  abbrev pub item_of : Fields → Result Item
  item_of f =
      if not (has_keys resource_keys f)
      then refused "delegation.resource_shape_invalid"
      else and_then (text_field "delegation.resource_type_invalid" (get f "resource_type"))
          (named_type f)

  abbrev pub same_resource : Item → Item → Bool
  same_resource a b = a.resource_type == b.resource_type && a.resource_id == b.resource_id

  -- The loop over the resources, with those that were seen.
  unfoldable pub load_items : List Item → Items → Result (List Item)
  unfolding get is_sha256 strip_text is_space
  load_items seen nil = ok []
  load_items seen (cons (object f) rest) = and_then (item_of f) (λ item.
      if exists (same_resource item) seen
      then refused "delegation.resource_duplicate"
      else and_then (load_items (item ∷ seen) rest) (λ items. ok (item ∷ items)))
  load_items seen (cons _ rest) = refused "delegation.resource_shape_invalid"

  abbrev type_rank : ResourceType → ℕ
  type_rank activity_disposition = 0
  type_rank snapshot_refusal = 1

  -- the order of (resource_type, resource_id)
  abbrev pub precedes : Item → Item → Bool
  precedes a b =
      ltb (type_rank a.resource_type) (type_rank b.resource_type)
      || (a.resource_type == b.resource_type && leb a.resource_id b.resource_id)

  unfoldable pub insert_item : Item → List Item → List Item
  insert_item a [] = a ∷ []
  insert_item a (b ∷ bs) =
      let rest = b ∷ insert_item a bs in if precedes a b then a ∷ b ∷ bs else rest

  unfoldable pub sort_items : List Item → List Item
  unfolding insert_item
  sort_items [] = []
  sort_items (a ∷ rest) = insert_item a (sort_items rest)

abbrev pub item_count : Items → ℕ
item_count nil = 0
item_count (cons item rest) = suc (item_count rest)

abbrev pub resource_list : Option Json → Result Items
resource_list (some (array items)) =
    if leb 1 (item_count items) && leb (item_count items) 1000
    then ok items
    else refused "delegation.resources_invalid"
resource_list _ = refused "delegation.resources_invalid"

abbrev pub make_manifest : Caller → String → String → List Item → Result Manifest
make_manifest delegated_to reason reference items = ok (record {
  delegated_to = delegated_to;
  authorization_reason = reason;
  authorization_ref = reference;
  resources = sort_items delegated_to items;
})

abbrev pub with_items : Caller → String → String → Items → Result Manifest
with_items delegated_to reason reference raw =
    and_then (load_items delegated_to [] raw) (make_manifest delegated_to reason reference)

abbrev pub with_reference : Fields → Caller → String → String → Result Manifest
with_reference f delegated_to reason reference =
    and_then (resource_list (get f "resources")) (with_items delegated_to reason reference)

abbrev pub stated_reference : Fields → Caller → String → String → Result Manifest
stated_reference f delegated_to reason t =
    and_then (stated "delegation.authorization_ref_invalid" t)
      (with_reference f delegated_to reason)

abbrev pub with_reason : Fields → Caller → String → Result Manifest
with_reason f delegated_to reason =
    and_then (text_field "delegation.authorization_ref_invalid" (get f "authorization_ref"))
      (stated_reference f delegated_to reason)

abbrev pub stated_reason : Fields → Caller → String → Result Manifest
stated_reason f delegated_to t =
    and_then (stated "delegation.authorization_reason_invalid" t) (with_reason f delegated_to)

abbrev pub with_delegate : Fields → Caller → Result Manifest
with_delegate f delegated_to =
    and_then (text_field "delegation.authorization_reason_invalid" (get f "authorization_reason"))
      (stated_reason f delegated_to)

abbrev pub named_delegate : Fields → String → Result Manifest
named_delegate f name =
    and_then (or_refused "delegation.delegate_invalid" (caller_named name)) (with_delegate f)

abbrev pub has_schema : Option Json → Bool
has_schema (some (string t)) = t == manifest_schema
has_schema _ = false

abbrev pub well_shaped : Fields → Bool
well_shaped f = has_keys manifest_keys f && has_schema (get f "schema")

unfoldable pub load_owner_delegation_manifest : Fields → Result Manifest
unfolding get load_items sort_items strip_text is_space
load_owner_delegation_manifest f =
    if not (well_shaped f)
    then refused "delegation.manifest_shape_invalid"
    else and_then (text_field "delegation.delegate_invalid" (get f "delegated_to"))
        (named_delegate f)
