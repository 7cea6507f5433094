-- ===== src/Delegation/Manifest/Ordering.antt =====
-- Sorting the items of a manifest keeps them.
use bridge_db.Prelude.{
  ◌+◌, ◌≡◌, refl, ◌∙◌, inl, inr, Bool, List, [], ◌∷◌, All, arith, count_where, Bool-cases, nat_eq,
  string_eq, length,
}
use bridge_db.Models.{Caller, caller_eq}
use bridge_db.Delegation.Resources.{resource_type_eq}
use bridge_db.Delegation.Grants.{Item}
use bridge_db.Delegation.Manifest.{insert_item, sort_items, precedes}

module _ (delegated_to : Caller) where
  insert-All :
      (P : Item → Type 0) (a : Item) (bs : List Item)
      → P a
      → All P bs
      → All P (insert_item delegated_to a bs)
  unfolding insert_item
  insert-All P a [] p ps = (p, tt)
  insert-All P a (b ∷ bs) p (q, qs) = elim (Bool-cases (precedes delegated_to a b)) [
    | inl e ↦ rw e (p, (q, qs))
    | inr e ↦ rw e (q, insert-All P a bs p qs)
  ]

  pub sort-All :
      (P : Item → Type 0) (as_ : List Item) → All P as_ → All P (sort_items delegated_to as_)
  unfolding sort_items
  sort-All P [] all = tt
  sort-All P (a ∷ rest) (p, ps) =
      insert-All P a (sort_items delegated_to rest) p (sort-All P rest ps)

  count-insert :
      (test : Item → Bool) (a : Item) (bs : List Item)
      → count_where test (insert_item delegated_to a bs) ≡ count_where test (a ∷ bs)
  unfolding insert_item
  count-insert test a [] = refl
  count-insert test a (b ∷ bs) = ground (arith, count-insert test a bs)

  pub count-sort :
      (test : Item → Bool) (items : List Item)
      → count_where test (sort_items delegated_to items) ≡ count_where test items
  unfolding sort_items
  count-sort test [] = refl
  count-sort test (a ∷ rest) =
      count-insert test a (sort_items delegated_to rest) ∙ ground (arith, count-sort test rest)

  length-insert :
      (a : Item) (bs : List Item) → length (insert_item delegated_to a bs) ≡ length bs + 1
  unfolding insert_item
  length-insert a [] = refl
  length-insert a (b ∷ bs) = ground (arith, length-insert a bs)

  pub length-sort : (items : List Item) → length (sort_items delegated_to items) ≡ length items
  unfolding sort_items
  length-sort [] = refl
  length-sort (a ∷ rest) =
      length-insert a (sort_items delegated_to rest) ∙ ground (arith, length-sort rest)
