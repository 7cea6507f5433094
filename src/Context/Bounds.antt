-- ===== src/Context/Bounds.antt =====
-- The tables of the context sections keep their bounds: a name is stored once, and the contents
-- stay within the total.
use mathlib.Core.Path.{subst}
use bridge_db.Prelude.{
  ℕ, ◌+◌, ◌≤◌, String, ◌≡◌, refl, inl, inr, true, false, none, List, [], ◌∷◌, ◌++◌, arith,
  count_where, count_where-append, Bool-cases, ◌==◌, string_eq, eq_iff, ◌⊎◌,
}
use bridge_db.Context.Sections.{
  Section, Tables, named, section_row, total_bytes, total_max_bytes, new_section, update_aborts,
  insert_aborts,
}
use bridge_db.Context.Upsert.{Write, cas, rewritten, inserted}
use bridge_db.Context.Protocol.{
  Step, receipt, import_receipt, History, begin, then_write, then_promote,
}
use bridge_db.Context.Lookup.{count-update, total-update, count-promoted, total-promoted}
use bridge_db.Context.Promote.{section_promotable, section_promoted}
use bridge_db.Models.{SourceTrust}

pub record Bounded (rows : List Section) : Type 0 where
  pub unique : (name : String) → count_where (named name) rows ≤ 1
  pub total : total_bytes rows ≤ total_max_bytes

total-append : (xs ys : List Section) → total_bytes (xs ++ ys) ≡ total_bytes xs + total_bytes ys
total-append [] ys = omega arith
total-append (x ∷ xs) ys = omega (arith, total-append xs ys)

count-none :
    (name : String) (rows : List Section)
    → section_row name rows ≡ none
    → count_where (named name) rows ≡ 0
count-none name [] h = refl
count-none name (r ∷ rows) h = ground (arith, count-none name rows)

module _ (now : String) (w : Write) (t : Tables) (b : Bounded t.sections) where
  rewritten-Bounded :
      count_where (cas w) t.sections ≡ 1
      → update_aborts w.section_name w.content t.sections ≡ false
      → Bounded (rewritten now w t).sections
  unfolding update_aborts
  rewritten-Bounded one fits = record {
    unique = λ name.
        ground
          (arith, b.unique name, count-update (cas w) w.content w.source_trust now name t.sections);
    total = ground (
      arith,
      b.total,
      total-update (cas w) w.content w.source_trust now w.section_name t.sections
          (λ r e. ground arith) (b.unique w.section_name),
    );
  }

  unique_with :
      (name : String) (row : Section)
      → ((row.section_name == name) ≡ true) ⊎ ((row.section_name == name) ≡ false)
      → section_row row.section_name t.sections ≡ none
      → count_where (named name) (t.sections ++ row ∷ []) ≤ 1
  unique_with name row (inl e) new =
      let same =
        subst (λ n. section_row n t.sections ≡ none) ((eq_iff row.section_name name).0 e) new in
      ground (
        arith,
        count-none name t.sections same,
        count_where-append (named name) t.sections (row ∷ []),
      )
  unique_with name row (inr e) new =
      ground (arith, b.unique name, count_where-append (named name) t.sections (row ∷ []))

  inserted-Bounded :
      section_row w.section_name t.sections ≡ none
      → insert_aborts w.content t.sections ≡ false
      → Bounded (inserted now w t).sections
  unfolding insert_aborts
  inserted-Bounded new fits =
      let row = new_section w.section_name w.owner w.content w.source_trust now in
      record {
        unique = λ name. unique_with name row (Bool-cases (w.section_name == name)) new;
        total = ground (arith, total-append t.sections (row ∷ []));
      }

promoted-Bounded :
    (t : Tables) (name : String) (version : ℕ) (trust : SourceTrust)
    → Bounded t.sections
    → Bounded (section_promoted name version trust t).sections
promoted-Bounded t name version trust b =
    let test = section_promotable name version trust in
    record {
      unique = λ n. omega (arith, b.unique n, count-promoted test n t.sections);
      total = omega (arith, b.total, total-promoted test t.sections);
    }

pub step-Bounded : {t u : Tables} → Step t u → Bounded t.sections → Bounded u.sections
step-Bounded {t} (Step.rewrite now w label one fits) b = rewritten-Bounded now w t b one fits
step-Bounded {t} (Step.insert now w label new fits) b = inserted-Bounded now w t b new fits
step-Bounded (receipt l) b = b
step-Bounded (import_receipt i) b = b

-- From tables where it holds, every history of writes and promotions keeps each section's name
-- unique and the contents of all sections together within the limit of 1048576 bytes.
pub History-Bounded :
    {t u : Tables} {ps : List (String × ℕ)}
    → History t ps u
    → Bounded t.sections
    → Bounded u.sections
History-Bounded begin b = b
History-Bounded (then_write h step) b = step-Bounded step (History-Bounded h b)
History-Bounded (then_promote {t} name version trust one h) b =
    promoted-Bounded t name version trust (History-Bounded h b)
