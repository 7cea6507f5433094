-- ===== src/Delegation/Manifest/Sound.antt =====
-- What a loaded manifest may name.
use bridge_db.Prelude.{
  ◌≤◌, String, ◌≡◌, ◌∙◌, inl, inr, ◌&&◌, Option, none, some, [], All, arith, leb, count_where,
  Bool-cases, nat_eq, string_eq, length,
}
use mathlib.Core.Path.{subst}
use bridge_db.Models.{Caller, caller_eq}
use bridge_db.Json.{
  Json, Items, Fields, get, string, int, array, object, null, bool, neg_int, float,
}
use bridge_db.Exec.{ok, ok-injective}
use bridge_db.Delegation.Resources.{resource_type_eq}
use bridge_db.Delegation.Grants.{Item, Manifest}
use bridge_db.Delegation.Manifest.Ordering.{sort-All, count-sort, length-sort}
use bridge_db.Delegation.Manifest.Entries.{
  and_then-ok, Delegable, items-Fresh, count-distinct, every_item_passes, length-load,
}
use bridge_db.Delegation.Manifest.{
  text_field, or_refused, stated, resource_list, caller_named, stated_reference, stated_reason,
  named_delegate, well_shaped, item_count, same_resource, load_items, make_manifest, with_items,
  with_reference, with_reason, with_delegate, load_owner_delegation_manifest,
}

-- A manifest that may be applied.
pub record Sound (m : Manifest) : Type 0 where
  pub some_resources : 1 ≤ length m.resources
  pub few_resources : length m.resources ≤ 1000
  pub delegable : All (Delegable m.delegated_to) m.resources
  pub distinct : (k : Item) → count_where (same_resource m.delegated_to k) m.resources ≤ 1

items-Sound :
    (d : Caller) (reason reference : String) (raw : Items) (m : Manifest)
    → 1 ≤ item_count raw
    → item_count raw ≤ 1000
    → with_items d reason reference raw ≡ ok m
    → Sound m
items-Sound d reason reference raw m one few h =
    let (items, read, made) =
      and_then-ok (load_items d [] raw) (make_manifest d reason reference) m h in
    let fresh = items-Fresh d [] raw items read in
    let size = length-sort d items ∙ length-load d [] raw items read in
    subst Sound (ok-injective _ _ made) (record {
      some_resources = omega (arith, size, one);
      few_resources = omega (arith, size, few);
      delegable = sort-All d (Delegable d) items (every_item_passes d [] items fresh);
      distinct = λ k.
          omega (arith, count-sort d (same_resource d k) items, count-distinct d k [] items fresh);
    })

list-bounds :
    (o : Option Json) (raw : Items)
    → resource_list o ≡ ok raw
    → (1 ≤ item_count raw) × (item_count raw ≤ 1000)
list-bounds (some (array items)) raw h =
    elim (Bool-cases (leb 1 (item_count items) && leb (item_count items) 1000)) [
      | inr e ↦ absurd (cc (rw e at h))
      | inl e ↦
          let same = ok-injective _ _ (rw e at h) in
          (
            subst (λ (x : Items). 1 ≤ item_count x) same (ground arith),
            subst (λ (x : Items). item_count x ≤ 1000) same (ground arith),
          )
    ]
list-bounds none raw h = absurd (cc h)
list-bounds (some null) raw h = absurd (cc h)
list-bounds (some (bool b)) raw h = absurd (cc h)
list-bounds (some (int n)) raw h = absurd (cc h)
list-bounds (some (neg_int n)) raw h = absurd (cc h)
list-bounds (some (float t)) raw h = absurd (cc h)
list-bounds (some (string t)) raw h = absurd (cc h)
list-bounds (some (object f)) raw h = absurd (cc h)

delegate-Sound : (f : Fields) (d : Caller) (m : Manifest) → with_delegate f d ≡ ok m → Sound m
delegate-Sound f d m h =
    let (t, _, a) =
      and_then-ok
        (text_field "delegation.authorization_reason_invalid" (get f "authorization_reason"))
        (stated_reason f d) m h in
    let (reason, _, b) =
      and_then-ok (stated "delegation.authorization_reason_invalid" t) (with_reason f d) m a in
    let (u, _, c) =
      and_then-ok (text_field "delegation.authorization_ref_invalid" (get f "authorization_ref"))
        (stated_reference f d reason) m b in
    let (reference, _, e) =
      and_then-ok (stated "delegation.authorization_ref_invalid" u) (with_reference f d reason) m
        c in
    let (raw, read, g) =
      and_then-ok (resource_list (get f "resources")) (with_items d reason reference) m e in
    let (one, few) = list-bounds (get f "resources") raw read in
    items-Sound d reason reference raw m one few g

-- Whatever mapping it is given, a manifest that `load_owner_delegation_manifest` accepts names
-- between 1 and 1000 resources, no resource twice, each with an owner other than the delegate and
-- with a well-formed digest.
pub load_owner_delegation_manifest-Sound :
    (f : Fields) (m : Manifest) → load_owner_delegation_manifest f ≡ ok m → Sound m
unfolding load_owner_delegation_manifest
load_owner_delegation_manifest-Sound f m h = elim (Bool-cases (well_shaped f)) [
  | inr e ↦ absurd (cc (rw e at h))
  | inl e ↦
      let (name, _, named) =
        and_then-ok (text_field "delegation.delegate_invalid" (get f "delegated_to"))
          (named_delegate f) m (rw e at h) in
      let (d, _, rest) =
        and_then-ok (or_refused "delegation.delegate_invalid" (caller_named name)) (with_delegate f)
          m named in
      delegate-Sound f d m rest
]
