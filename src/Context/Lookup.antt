-- ===== src/Context/Lookup.antt =====
-- The row that a name finds, after a rewrite of the rows that a token matches, after an insert and
-- after a promotion.
use bridge_db.Prelude.{
  ◌≤◌, String, ◌≡◌, refl, inl, inr, Bool, true, Option, some, List, [], ◌∷◌, arith, count_where,
  update_where, select, option_map, Bool-cases, ◌!=◌, string_eq, nat_eq, if◌then◌else◌,
}
use bridge_db.Context.Sections.{Section, named, section_row, total_bytes, rewrite_row, others_with}
use bridge_db.Models.{SourceTrust}
use bridge_db.Context.Promote.{promote_section_row}
use mathlib.Core.Path.{subst}
use mathlib.Core.Option.{some-injective}

module _ (test : Section → Bool) (content : String) (trust : Option SourceTrust)
    (now : String) where
  pub row-update :
      (name : String) (rows : List Section)
      → section_row name (update_where test (rewrite_row content trust now) rows)
        ≡ option_map
            (λ r. if test r then rewrite_row content trust now r else r)
            (section_row name rows)
  row-update name [] = refl
  row-update name (r ∷ rows) = ground (arith, row-update name rows)

  pub count-update :
      (name : String) (rows : List Section)
      → count_where (named name) (update_where test (rewrite_row content trust now) rows)
        ≡ count_where (named name) rows
  count-update name [] = refl
  count-update name (r ∷ rows) = ground (arith, count-update name rows)

  -- no row with the name: nothing to rewrite
  pub total-none :
      (name : String) (rows : List Section)
      → ((r : Section) → test r ≡ true → named name r ≡ true)
      → count_where (named name) rows ≡ 0
      → total_bytes (update_where test (rewrite_row content trust now) rows) ≡ total_bytes rows
  total-none name [] only h = refl
  total-none name (r ∷ rows) only h = ground (arith, only r, total-none name rows only)

  others-none :
      (name : String) (rows : List Section)
      → count_where (named name) rows ≡ 0
      → total_bytes (select (λ s. s.section_name != name) rows) ≡ total_bytes rows
  others-none name [] h = refl
  others-none name (r ∷ rows) h = ground (arith, others-none name rows)

  pub count_le :
      (name : String) (rows : List Section)
      → ((r : Section) → test r ≡ true → named name r ≡ true)
      → count_where test rows ≤ count_where (named name) rows
  count_le name [] only = omega arith
  count_le name (r ∷ rows) only = ground (arith, only r, count_le name rows only)

  -- the bytes after the rewrite of a unique row are those that the trigger counts
  pub total-update :
      (name : String) (rows : List Section)
      → ((r : Section) → test r ≡ true → named name r ≡ true)
      → count_where (named name) rows ≤ 1
      → 1 ≤ count_where test rows
      → total_bytes (update_where test (rewrite_row content trust now) rows)
        ≡ others_with name content rows
  total-update name [] only u h = absurd (omega arith)
  total-update name (r ∷ rows) only u h = elim (Bool-cases (test r)) [
    | inl e ↦ ground (arith, only r e, total-none name rows only, others-none name rows)
    | inr e ↦
        ground (arith, count_le name rows only, others-none name rows, total-update name rows only)
  ]

-- a promotion changes neither names nor contents
module _ (test : Section → Bool) where
  pub row-promoted :
      (name : String) (rows : List Section)
      → section_row name (update_where test promote_section_row rows)
        ≡ option_map (λ r. if test r then promote_section_row r else r) (section_row name rows)
  row-promoted name [] = refl
  row-promoted name (r ∷ rows) = ground (arith, row-promoted name rows)

  pub count-promoted :
      (name : String) (rows : List Section)
      → count_where (named name) (update_where test promote_section_row rows)
        ≡ count_where (named name) rows
  count-promoted name [] = refl
  count-promoted name (r ∷ rows) = ground (arith, count-promoted name rows)

  pub total-promoted :
      (rows : List Section)
      → total_bytes (update_where test promote_section_row rows) ≡ total_bytes rows
  total-promoted [] = refl
  total-promoted (r ∷ rows) = ground (arith, total-promoted rows)

pub section_row-named :
    (name : String) (rows : List Section) (x : Section)
    → section_row name rows ≡ some x
    → named name x ≡ true
section_row-named name [] x h = absurd (cc h)
section_row-named name (y ∷ ys) x h = elim (Bool-cases (named name y)) [
  | inl e ↦ subst (λ (z : Section). named name z ≡ true) (some-injective _ _ (rw e at h)) e
  | inr e ↦ section_row-named name ys x (rw e at h)
]
