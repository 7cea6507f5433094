-- ===== src/Delegation/Atomic.antt =====
-- A manifest is applied as a whole or not at all.
use bridge_db.Prelude.{
  ℕ, ◌≡◌, refl, ◌∙◌, sym, ap, inl, inr, true, Option, none, some, List, [], ◌∷◌, All, find,
  find-append, Bool-cases, eq_self, nat_eq, string_eq,
}
use mathlib.Core.Path.{subst}
use bridge_db.Models.{caller_eq}
use bridge_db.Errors.{ToolError}
use bridge_db.Exec.{Result, ok, err}
use bridge_db.Session.Runs.{Result-cases, bind-ok}
use bridge_db.Delegation.Resources.{
  ResourceType, resource_type_eq, Activity, Refusal, Codec, Image, is_actionable,
}
use bridge_db.Delegation.Grants.{
  OwnerGrant, Tables, Item, Manifest, Applied, grants_resource, new_grant, is_expected,
  inserted_tables, replay, find_grant, is_current, grant_image, observed, apply_item, apply_items,
  all_or_nothing, apply_owner_delegation_manifest,
}

-- The resources and the consumptions are the same, and each grant that was there still is.
pub record Extends (t u : Tables) : Type 0 where
  pub same_activities : u.activities ≡ t.activities
  pub same_refusals : u.refusals ≡ t.refusals
  pub same_consumptions : u.consumptions ≡ t.consumptions
  pub keeps :
      (type : ResourceType) (id : ℕ) (g : OwnerGrant)
      → find (grants_resource type id) t.grants ≡ some g
      → find (grants_resource type id) u.grants ≡ some g

module _ (codec : Codec) (manifest : Manifest) where
  -- The resource of an item had the image that the manifest names, was open, and is granted to the
  -- delegate by the manifest's authority.
  pub record Covered (t u : Tables) (item : Item) : Type 0 where
    pub image : Image
    pub is_observed : observed codec manifest item t ≡ ok image
    pub current : is_current codec manifest item image ≡ true
    pub actionable : is_actionable image ≡ true
    pub grant : OwnerGrant
    pub is_granted : find_grant codec manifest item u ≡ some grant
    pub expected : is_expected codec manifest item grant ≡ true

  self_expected :
      (id : ℕ) (item : Item)
      → is_expected codec manifest item (new_grant codec manifest id item) ≡ true
  unfolding is_expected
  self_expected id item =
      rw
        (
          eq_self item.original_owner,
          eq_self manifest.delegated_to,
          eq_self item.resource_sha256,
          eq_self manifest.authorization_reason,
          eq_self manifest.authorization_ref,
        )
        refl

  refl-Extends : (t : Tables) → Extends t t
  refl-Extends t = record {
    same_activities = refl;
    same_refusals = refl;
    same_consumptions = refl;
    keeps = λ type id g h. h;
  }

  join-Extends : {s t u : Tables} → Extends s t → Extends t u → Extends s u
  join-Extends p q = record {
    same_activities = q.same_activities ∙ p.same_activities;
    same_refusals = q.same_refusals ∙ p.same_refusals;
    same_consumptions = q.same_consumptions ∙ p.same_consumptions;
    keeps = λ type id g h. q.keeps type id g (p.keeps type id g h);
  }

  insert-Extends : (item : Item) (t : Tables) → Extends t (inserted_tables codec manifest item t)
  insert-Extends item t = record {
    same_activities = refl;
    same_refusals = refl;
    same_consumptions = refl;
    keeps = λ type id g h.
        find-append (grants_resource type id) t.grants
          (new_grant codec manifest t.next_id item ∷ [])
        ∙ rw h refl;
  }

  inserted_found :
      (item : Item) (t : Tables)
      → find_grant codec manifest item t ≡ none
      → find_grant codec manifest item (inserted_tables codec manifest item t)
        ≡ some (new_grant codec manifest t.next_id item)
  inserted_found item t h =
      find-append (grants_resource item.resource_type item.resource_id) t.grants
        (new_grant codec manifest t.next_id item ∷ [])
      ∙ rw (h, eq_self item.resource_type, eq_self item.resource_id) refl

  -- What a grant of an item leaves.
  record Stands (item : Item) (t u : Tables) : Type 0 where
    extends : Extends t u
    grant : OwnerGrant
    is_granted : find_grant codec manifest item u ≡ some grant
    expected : is_expected codec manifest item grant ≡ true

  replay-Stands :
      (item : Item) (a b : Applied) (t : Tables) (o : Option OwnerGrant)
      → find_grant codec manifest item t ≡ o
      → (replay codec manifest item a o t).0 ≡ ok b
      → Stands item t (replay codec manifest item a o t).1
  replay-Stands item a b t none found h = record {
    extends = insert-Extends item t;
    grant = new_grant codec manifest t.next_id item;
    is_granted = inserted_found item t found;
    expected = self_expected t.next_id item;
  }
  replay-Stands item a b t (some g) found h =
      elim (Bool-cases (is_expected codec manifest item g)) [
        | inr e ↦ absurd (cc (rw e at h))
        | inl e ↦
            rw e (record { extends = refl-Extends t; grant = g; is_granted = found; expected = e })
      ]

  image-Covered :
      (item : Item) (a b : Applied) (t : Tables) (image : Image)
      → observed codec manifest item t ≡ ok image
      → (grant_image codec manifest item a image t).0 ≡ ok b
      → Extends t (grant_image codec manifest item a image t).1
        × Covered t (grant_image codec manifest item a image t).1 item
  image-Covered item a b t image seen h = elim (Bool-cases (is_current codec manifest item image)) [
    | inr e ↦ absurd (cc (rw e at h))
    | inl e ↦ elim (Bool-cases (is_actionable image)) [
      | inr f ↦ absurd (cc (rw (e, f) at h))
      | inl f ↦
          let s =
            replay-Stands item a b t (find_grant codec manifest item t) refl (rw (e, f) at h) in
          rw (e, f)
            (
              s.extends,
              record {
                image = image;
                is_observed = seen;
                current = e;
                actionable = f;
                grant = s.grant;
                is_granted = s.is_granted;
                expected = s.expected;
              },
            )
    ]
  ]

  carried : {t u v : Tables} {item : Item} → Covered t u item → Extends u v → Covered t v item
  carried {item = item} c e = record {
    image = c.image;
    is_observed = c.is_observed;
    current = c.current;
    actionable = c.actionable;
    grant = c.grant;
    is_granted = e.keeps item.resource_type item.resource_id c.grant c.is_granted;
    expected = c.expected;
  }

  pub same_view :
      (s t : Tables) (item : Item)
      → Extends s t
      → observed codec manifest item s ≡ observed codec manifest item t
  same_view s t item e =
      ap (λ (xs : List Activity). observed codec manifest item (record s { activities = xs }))
        (sym e.same_activities)
      ∙ ap (λ (ys : List Refusal). observed codec manifest item (record t { refusals = ys }))
          (sym e.same_refusals)

  seen_before : {s t u : Tables} {item : Item} → Extends s t → Covered t u item → Covered s u item
  seen_before {s} {t} {item = item} e c = record {
    image = c.image;
    is_observed = same_view s t item e ∙ c.is_observed;
    current = c.current;
    actionable = c.actionable;
    grant = c.grant;
    is_granted = c.is_granted;
    expected = c.expected;
  }

  item-Covered :
      (item : Item) (a b : Applied) (t : Tables)
      → (apply_item codec manifest item a t).0 ≡ ok b
      → Extends t (apply_item codec manifest item a t).1
        × Covered t (apply_item codec manifest item a t).1 item
  item-Covered item a b t h = elim (Result-cases (observed codec manifest item t)) [
    | inr (e, q) ↦ absurd (cc (rw q at h))
    | inl (image, q) ↦ rw q (image-Covered item a b t image q (rw q at h))
  ]

  weaken :
      {t u : Tables} (v : Tables) (items : List Item)
      → Extends t u
      → All (Covered u v) items
      → All (Covered t v) items
  weaken v [] e all = tt
  weaken v (item ∷ items) e (c, cs) = (seen_before e c, weaken v items e cs)

  items-Covered :
      (items : List Item) (a b : Applied) (t : Tables)
      → (apply_items codec manifest items a t).0 ≡ ok b
      → Extends t (apply_items codec manifest items a t).1
        × All (Covered t (apply_items codec manifest items a t).1) items
  unfolding apply_items
  items-Covered [] a b t h = (refl-Extends t, tt)
  items-Covered (item ∷ items) a b t h =
      let (q, first, whole) =
        bind-ok (apply_item codec manifest item a) (apply_items codec manifest items) t b h in
      let u : Tables = (apply_item codec manifest item a t).1 in
      let (e, c) = item-Covered item a q t first in
      let (f, cs) =
        items-Covered items q b u (subst (λ (x : Result Applied × Tables). x.0 ≡ ok b) whole h) in
      subst (λ (x : Result Applied × Tables). Extends t x.1 × All (Covered t x.1) (item ∷ items))
        (sym whole) (join-Extends e f, (carried c f, weaken _ items e cs))

  -- How the application of a manifest ends.
  pub data Outcome (t : Tables) : Result Applied → Tables → Type 0 where
    rejected : (e : ToolError) → Outcome t (err e) t
    granted :
        {a : Applied} {u : Tables}
        → Extends t u
        → All (Covered t u) manifest.resources
        → Outcome t (ok a) u

  all_or_nothing-Outcome :
      (t : Tables) (r : Result Applied) (u : Tables)
      → ((a : Applied) → r ≡ ok a → Extends t u × All (Covered t u) manifest.resources)
      → Outcome t
          (all_or_nothing codec manifest t (r, u)).0
          (all_or_nothing codec manifest t (r, u)).1
  all_or_nothing-Outcome t (ok a) u h = granted (h a refl).0 (h a refl).1
  all_or_nothing-Outcome t (err e) u h = rejected e

  -- A manifest is applied as a whole or not at all. Where an item is refused, no table changes.
  -- Otherwise every resource that the manifest names was observed with the owner and the digest
  -- that it names, and open, and is now granted to the delegate by the manifest's authority; each
  -- grant that was there still is, and neither the resources nor the consumptions change.
  pub apply_owner_delegation_manifest-Outcome :
      (t : Tables)
      → Outcome t
          (apply_owner_delegation_manifest codec manifest t).0
          (apply_owner_delegation_manifest codec manifest t).1
  unfolding apply_owner_delegation_manifest
  apply_owner_delegation_manifest-Outcome t =
      let begun : Applied = record { inserted = []; replayed = [] } in
      all_or_nothing-Outcome t (apply_items codec manifest manifest.resources begun t).0
        (apply_items codec manifest manifest.resources begun t).1
        (λ b e. items-Covered manifest.resources begun b t e)
