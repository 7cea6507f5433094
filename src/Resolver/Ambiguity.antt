-- ===== src/Resolver/Ambiguity.antt =====
-- `resolve` never guesses among several entries of the registry.
use bridge_db.Prelude.{
  String, ◌≡◌, refl, true, false, Option, none, some, List, [], ◌∷◌, arith, Bool-cases, inl, inr,
}
use bridge_db.Resolver.{
  Folding, Entry, Resolution, Index, lookup, normalize, exact, is_empty, decide, or_else, resolve,
}

-- the candidates of the first form that has any: an override, the exact form, the normalised form
abbrev pub candidates : Folding → Index → String → Option (List Entry)
candidates fold index name = or_else (lookup (normalize fold name) index.override_norm_to_entries) (
    or_else (lookup (exact fold name) index.exact_to_entries)
      (lookup (normalize fold name) index.norm_to_entries))

-- One entry stands behind the answer.
pub record Unique (o : Option (List Entry)) (r : Resolution) : Type 0 where
  pub entry : Entry
  pub only : o ≡ some (entry ∷ [])
  pub key : r.canonical_key ≡ entry.canonical_key
  pub page : r.notion_page_id ≡ entry.notion_page_id

decide-Unique : (o : Option (List Entry)) → (decide o).matched ≡ true → Unique o (decide o)
decide-Unique none h = absurd (ground arith)
decide-Unique (some []) h = absurd (ground arith)
decide-Unique (some (e ∷ [])) h = record { entry = e; only = refl; key = refl; page = refl }
decide-Unique (some (e ∷ f ∷ es)) h = absurd (ground arith)

decide-key :
    (o : Option (List Entry)) → (decide o).matched ≡ false → (decide o).canonical_key ≡ none
decide-key none h = refl
decide-key (some []) h = refl
decide-key (some (e ∷ [])) h = absurd (ground arith)
decide-key (some (e ∷ f ∷ es)) h = refl

module _ (fold : Folding) (index : Index) (name : String) where
  -- Over a registry that is present, an answer is matched only where the normalised name is not
  -- empty and the first form with candidates has exactly one entry, whose key and page the answer
  -- carries; an answer that is not matched carries no key.
  pub resolve-Unique :
      ((resolve fold (some index) name).matched ≡ true
        → (is_empty (normalize fold name) ≡ false)
          × Unique (candidates fold index name) (resolve fold (some index) name))
      × ((resolve fold (some index) name).matched ≡ false
          → (resolve fold (some index) name).canonical_key ≡ none)
  unfolding resolve
  resolve-Unique = elim (Bool-cases (is_empty (normalize fold name))) [
    | inl e ↦ rw e (λ h. absurd (ground arith), λ h. refl)
    | inr e ↦ rw e (
      λ h. (refl, decide-Unique (candidates fold index name) h),
      λ h. decide-key (candidates fold index name) h,
    )
  ]
