-- ===== src/Delegation/Manifest/Entries.antt =====
-- The items that a loaded manifest names.
use bridge_db.Prelude.{
  ℕ, suc, ◌≤◌, String, ◌≡◌, refl, sym, ◌∙◌, ap, inl, inr, true, false, ◌&&◌, List, [], ◌∷◌, All,
  arith, exists, count_where, Bool-cases, ◌==◌, nat_eq, string_eq, if◌then◌else◌, length,
  nat_beq_iff,
}
use mathlib.Core.Path.{subst}
use bridge_db.Models.{Caller, caller_eq}
use bridge_db.Json.{
  Items, Fields, get, string, int, array, object, nil, cons, null, bool, neg_int, float,
}
use bridge_db.Exec.{Result, ok, err, ok-injective, and_then}
use bridge_db.Delegation.Resources.{ResourceType, resource_type_eq, resource_type_beq_iff}
use bridge_db.Delegation.Grants.{Item}
use bridge_db.Delegation.Use.{is_sha256}
use bridge_db.Delegation.Manifest.{
  has_keys, resource_keys, refused, text_field, or_refused, positive, caller_named,
  resource_type_named, named_type, named_owner, item_count, with_hash, with_owner, with_id,
  with_type, item_of, same_resource, load_items,
}

-- A check that answers, and what follows it.
pub and_then-ok :
    {A B : Type 0} (r : Result A) (f : A → Result B) (b : B)
    → and_then r f ≡ ok b
    → (a : A) × (r ≡ ok a) × (f a ≡ ok b)
and_then-ok (ok a) f b h = (a, refl, h)
and_then-ok (err e) f b h = absurd (cc h)

-- An item names another owner than the delegate, and the digest is one.
pub record Delegable (delegated_to : Caller) (item : Item) : Type 0 where
  pub another : (item.original_owner == delegated_to) ≡ false
  pub is_digest : is_sha256 item.resource_sha256 ≡ true

module _ (delegated_to : Caller) where
  hash-Delegable :
      (type : ResourceType) (id : ℕ) (owner : Caller) (text : String) (item : Item)
      → (owner == delegated_to) ≡ false
      → with_hash delegated_to type id owner text ≡ ok item
      → Delegable delegated_to item
  hash-Delegable type id owner text item apart h = elim (Bool-cases (is_sha256 text)) [
    | inr e ↦ absurd (cc (rw e at h))
    | inl e ↦
        subst (Delegable delegated_to) (ok-injective _ _ (rw e at h))
          (record { another = apart; is_digest = e })
  ]

  owner-Delegable :
      (f : Fields) (type : ResourceType) (id : ℕ) (named : Caller) (item : Item)
      → with_owner delegated_to f type id named ≡ ok item
      → Delegable delegated_to item
  owner-Delegable f type id named item h = elim (Bool-cases (named == delegated_to)) [
    | inl e ↦ absurd (cc (rw e at h))
    | inr e ↦
        let (text, _, rest) =
          and_then-ok (text_field "delegation.resource_sha256_invalid" (get f "resource_sha256"))
            (with_hash delegated_to type id named) item (rw e at h) in
        hash-Delegable type id named text item e rest
  ]

  item-Delegable :
      (f : Fields) (item : Item) → item_of delegated_to f ≡ ok item → Delegable delegated_to item
  item-Delegable f item h = elim (Bool-cases (has_keys resource_keys f)) [
    | inr e ↦ absurd (cc (rw e at h))
    | inl e ↦
        let (name, _, named) =
          and_then-ok (text_field "delegation.resource_type_invalid" (get f "resource_type"))
            (named_type delegated_to f) item (rw e at h) in
        let (type, _, typed) =
          and_then-ok (or_refused "delegation.resource_type_invalid" (resource_type_named name))
            (with_type delegated_to f) item named in
        let (id, _, numbered) =
          and_then-ok (positive (get f "resource_id")) (with_id delegated_to f type) item typed in
        let (owner_name, _, owned) =
          and_then-ok (text_field "delegation.original_owner_invalid" (get f "original_owner"))
            (named_owner delegated_to f type id) item numbered in
        let (owner, _, rest) =
          and_then-ok (or_refused "delegation.original_owner_invalid" (caller_named owner_name))
            (with_owner delegated_to f type id) item owned in
        owner-Delegable f type id owner item rest
  ]

  -- The items, none of which names a resource that was seen before it.
  pub data Fresh : List Item → List Item → Type 0 where
    nothing : {seen : List Item} → Fresh seen []
    another_item :
        {seen : List Item} {item : Item} {items : List Item}
        → Delegable delegated_to item
        → exists (same_resource delegated_to item) seen ≡ false
        → Fresh (item ∷ seen) items
        → Fresh seen (item ∷ items)

  abbrev loaded_rest : List Item → Items → Item → Result (List Item)
  loaded_rest seen rest item =
      if exists (same_resource delegated_to item) seen
      then refused "delegation.resource_duplicate"
      else and_then (load_items delegated_to (item ∷ seen) rest) (λ items. ok (item ∷ items))

  pub items-Fresh :
      (seen : List Item) (raw : Items) (items : List Item)
      → load_items delegated_to seen raw ≡ ok items
      → Fresh seen items
  unfolding load_items
  items-Fresh seen nil items h = subst (Fresh seen) (ok-injective _ _ h) nothing
  items-Fresh seen (cons (object f) rest) items h =
      let (item, made, goes_on) =
        and_then-ok (item_of delegated_to f) (loaded_rest seen rest) items h in
      elim (Bool-cases (exists (same_resource delegated_to item) seen)) [
        | inl e ↦ absurd (cc (rw e at goes_on))
        | inr e ↦
            let (more, read, whole) =
              and_then-ok (load_items delegated_to (item ∷ seen) rest)
                (λ (xs : List Item). ok (item ∷ xs)) items (rw e at goes_on) in
            subst (Fresh seen) (ok-injective _ _ whole) (
              another_item (item-Delegable f item made) e
                (items-Fresh (item ∷ seen) rest more read))
      ]
  items-Fresh seen (cons null rest) items h = absurd (cc h)
  items-Fresh seen (cons (bool b) rest) items h = absurd (cc h)
  items-Fresh seen (cons (int n) rest) items h = absurd (cc h)
  items-Fresh seen (cons (neg_int n) rest) items h = absurd (cc h)
  items-Fresh seen (cons (float t) rest) items h = absurd (cc h)
  items-Fresh seen (cons (string t) rest) items h = absurd (cc h)
  items-Fresh seen (cons (array xs) rest) items h = absurd (cc h)

  -- two items of one resource are the same to a search
  same-search :
      (k a : Item) (xs : List Item)
      → same_resource delegated_to k a ≡ true
      → exists (same_resource delegated_to k) xs ≡ exists (same_resource delegated_to a) xs
  same-search k a xs h =
      let same_type = (resource_type_beq_iff k.resource_type a.resource_type).0 (ground arith) in
      let same_id = (nat_beq_iff k.resource_id a.resource_id).0 (ground arith) in
      ap
        (λ (t : ResourceType).
          exists (λ (x : Item). t == x.resource_type && k.resource_id == x.resource_id) xs)
        same_type
      ∙ ap
          (λ (i : ℕ).
            exists (λ (x : Item). a.resource_type == x.resource_type && i == x.resource_id) xs)
          same_id

  count-seen :
      (k : Item) (seen items : List Item)
      → Fresh seen items
      → exists (same_resource delegated_to k) seen ≡ true
      → count_where (same_resource delegated_to k) items ≡ 0
  count-seen k seen [] nothing h = refl
  count-seen k seen (a ∷ items) (another_item d new rest) h =
      elim (Bool-cases (same_resource delegated_to k a)) [
        | inl e ↦ absurd (cc (same-search k a seen e, new, h))
        | inr e ↦ rw e (count-seen k (a ∷ seen) items rest (ground arith))
      ]

  pub count-distinct :
      (k : Item) (seen items : List Item)
      → Fresh seen items
      → count_where (same_resource delegated_to k) items ≤ 1
  count-distinct k seen [] nothing = omega arith
  count-distinct k seen (a ∷ items) (another_item d new rest) =
      elim (Bool-cases (same_resource delegated_to k a)) [
        | inl e ↦ ground (arith, e, count-seen k (a ∷ seen) items rest (ground arith))
        | inr e ↦ ground (arith, e, count-distinct k (a ∷ seen) items rest)
      ]

  pub every_item_passes :
      (seen items : List Item) → Fresh seen items → All (Delegable delegated_to) items
  every_item_passes seen [] nothing = tt
  every_item_passes seen (a ∷ items) (another_item d new rest) =
      (d, every_item_passes (a ∷ seen) items rest)

  pub length-load :
      (seen : List Item) (raw : Items) (items : List Item)
      → load_items delegated_to seen raw ≡ ok items
      → length items ≡ item_count raw
  unfolding load_items
  length-load seen nil items h = sym (ap length (ok-injective _ _ h))
  length-load seen (cons (object f) rest) items h =
      let (item, made, goes_on) =
        and_then-ok (item_of delegated_to f) (loaded_rest seen rest) items h in
      elim (Bool-cases (exists (same_resource delegated_to item) seen)) [
        | inl e ↦ absurd (cc (rw e at goes_on))
        | inr e ↦
            let (more, read, whole) =
              and_then-ok (load_items delegated_to (item ∷ seen) rest)
                (λ (xs : List Item). ok (item ∷ xs)) items (rw e at goes_on) in
            sym (ap length (ok-injective _ _ whole))
            ∙ ap suc (length-load (item ∷ seen) rest more read)
      ]
  length-load seen (cons null rest) items h = absurd (cc h)
  length-load seen (cons (bool b) rest) items h = absurd (cc h)
  length-load seen (cons (int n) rest) items h = absurd (cc h)
  length-load seen (cons (neg_int n) rest) items h = absurd (cc h)
  length-load seen (cons (float t) rest) items h = absurd (cc h)
  length-load seen (cons (string t) rest) items h = absurd (cc h)
  length-load seen (cons (array xs) rest) items h = absurd (cc h)
