-- ===== src/Context/Exclusion.antt =====
-- A version of a section is the token of at most one write.
use mathlib.Core.Path.{subst}
use mathlib.Core.Option.{some-injective}
use bridge_db.Prelude.{
  ℕ, suc, ◌≤◌, String, ◌≡◌, ◌≢◌, refl, sym, ◌∙◌, ap, inl, inr, true, Option, none, some, List, [],
  ◌∷◌, arith, count_where, option_map, Bool-cases, string_eq, nat_eq, nat_beq_iff,
}
use bridge_db.Models.{operator}
use bridge_db.Platform.{Platform}
use bridge_db.Exec.{Result, ok}
use bridge_db.Context.Sections.{Section, Tables, Store, named, section_row}
use bridge_db.Context.Upsert.{Write, Outcome, written, cas, rewritten, upsert_section}
use bridge_db.Context.Protocol.{Step, History}
use bridge_db.Context.Lookup.{row-update, count_le}
use bridge_db.Context.Bounds.{Bounded, step-Bounded, History-Bounded}
use bridge_db.Context.Lifecycle.{
  Later, kept, relabelled, replaced, appears, absent, History-LaterTables,
}
use bridge_db.Context.Ending.{Ended, swapped, created, update-Fitting, upsert_section-Ended}

-- Where a name is unique, a row with the token is the row that the name finds.
pub row_of_token :
    (w : Write) (rows : List Section)
    → count_where (named w.section_name) rows ≤ 1
    → 1 ≤ count_where (cas w) rows
    → (x : Section) × (section_row w.section_name rows ≡ some x) × (cas w x ≡ true)
row_of_token w [] unique found = absurd (omega arith)
row_of_token w (r ∷ rows) unique found = elim (Bool-cases (named w.section_name r)) [
  | inl e ↦ (
    r,
    ground arith,
    ground (
      arith,
      count_le (cas w) r.content none r.updated_at w.section_name rows (λ x h. ground arith),
    ),
  )
  | inr e ↦
      let (x, finds, has) = row_of_token w rows (ground arith) (ground arith) in
      (x, ground (arith, finds), has)
]

version_of_token :
    (w : Write) (v : ℕ) (x : Section) → w.if_match_version ≡ some v → cas w x ≡ true → x.version ≡ v
version_of_token w v x e h = ground (arith, e, nat_beq_iff x.version v)

-- The version that a name shows.
abbrev version_at : String → Tables → Option ℕ
version_at name t = option_map (λ (x : Section). x.version) (section_row name t.sections)

after_swap :
    (w : Write) (now : String) (v : ℕ) (t : Tables)
    → Bounded t.sections
    → w.if_match_version ≡ some v
    → count_where (cas w) t.sections ≡ 1
    → version_at w.section_name (rewritten now w t) ≡ some (suc v)
after_swap w now v t b token one =
    let (x, finds, has) = row_of_token w t.sections (b.unique w.section_name) (omega arith) in
    ap (option_map (λ (y : Section). y.version))
      (row-update (cas w) w.content w.source_trust now w.section_name t.sections)
    ∙ rw (finds, has) (ap (λ (n : ℕ). some (suc n)) (version_of_token w v x token has))

-- A write that names a version and is written found it and left the next one.
written-next :
    (pf : Platform) (now : String) (w : Write) (v : ℕ) (s : Store) (r : Result Outcome) (u : Tables)
    → Bounded s.tables.sections
    → w.if_match_version ≡ some v
    → Ended now w s.tables r u
    → r ≡ ok written
    → (version_at w.section_name s.tables ≡ some v) × (version_at w.section_name u ≡ some (suc v))
written-next pf now w v s r u b token (swapped has one small fits) e =
    let (x, finds, passes) =
      row_of_token w s.tables.sections (b.unique w.section_name) (omega arith) in
    (
      ap (option_map (λ (y : Section). y.version)) finds
          ∙ ap some (version_of_token w v x token passes),
      after_swap w now v s.tables b token one,
    )
written-next pf now w v s r u b token (created has new free small fits) e =
    absurd (ground (arith, token))
written-next pf now w v s r u b token _ e = absurd (cc e)

version-grows :
    (name : String) (ps : List (String × ℕ)) (o o' : Option Section) (v : ℕ)
    → Later name ps o o'
    → option_map (λ (y : Section). y.version) o ≡ some v
    → (n : ℕ) × (option_map (λ (y : Section). y.version) o' ≡ some n) × (v ≤ n)
version-grows name ps o o' v absent e = absurd (cc e)
version-grows name ps o o' v (appears l) e = absurd (cc e)
version-grows name ps o o' v kept e = (v, e, omega arith)
version-grows name ps o o' v (relabelled p) e = (v, e, omega arith)
version-grows name ps (some x) (some y) v (replaced g l) e =
    (y.version, refl, omega (arith, g.version_grows, some-injective _ _ e))

-- what a successful write with a token leaves is bounded
written-Bounded :
    (now : String) (w : Write) (v : ℕ) (t u : Tables) (r : Result Outcome)
    → Bounded t.sections
    → w.source_trust ≢ some operator
    → w.if_match_version ≡ some v
    → Ended now w t r u
    → r ≡ ok written
    → Bounded u.sections
written-Bounded now w v t u r b label token (swapped has one small fits) e =
    step-Bounded (Step.rewrite {t = t} now w label one (update-Fitting w t fits)) b
written-Bounded now w v t u r b label token (created has new free small fits) e =
    absurd (ground (arith, token))
written-Bounded now w v t u r b label token _ e = absurd (cc e)

-- Of two writes that name the same version of a section at most one is written: where names are
-- unique and the total is within its limit before the first, and it is written under a label other
-- than "operator", the second is not, however long after it comes and whatever writes and
-- promotions are committed in between.
pub upsert_section-exclusive :
    (pf : Platform) (now later : String) (w w' : Write) (v : ℕ) (s s' : Store)
    (ps : List (String × ℕ))
    → Bounded s.tables.sections
    → w.source_trust ≢ some operator
    → w'.section_name ≡ w.section_name
    → w.if_match_version ≡ some v
    → w'.if_match_version ≡ some v
    → (upsert_section pf now w s).0 ≡ ok written
    → History (upsert_section pf now w s).1.tables ps s'.tables
    → (upsert_section pf later w' s').0 ≢ ok written
upsert_section-exclusive pf now later w w' v s s' ps b label same first second won history wins =
    let ended = upsert_section-Ended pf now w s in
    let after : Tables = (upsert_section pf now w s).1.tables in
    let b' = written-Bounded now w v s.tables after _ b label first ended won in
    let moved = (written-next pf now w v s _ after b first ended won).1 in
    let found =
      (written-next pf later w' v s' _ (upsert_section pf later w' s').1.tables
        (History-Bounded history b') second (upsert_section-Ended pf later w' s') wins).0 in
    let (n, shows, grown) =
      version-grows w.section_name ps (section_row w.section_name after.sections)
        (section_row w.section_name s'.tables.sections) (suc v)
        (History-LaterTables history w.section_name) moved in
    let here : some n ≡ some v =
      sym shows ∙ subst (λ (name : String). version_at name s'.tables ≡ some v) same found in
    absurd (omega (arith, some-injective _ _ here, grown))
