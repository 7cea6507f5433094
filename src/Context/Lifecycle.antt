-- ===== src/Context/Lifecycle.antt =====
-- What becomes of a section over the writes of the protocol.
use bridge_db.Prelude.{
  ℕ, ◌<◌, String, ◌≡◌, ◌≢◌, refl, inl, inr, Bool, true, Option, none, some, List, [], ◌∷◌, arith,
  find, find-append, option_map, Bool-cases, ◌==◌, string_eq, nat_eq, eq_iff, nat_beq_iff,
  if◌then◌else◌, ◌∙◌,
}
use bridge_db.Models.{SourceTrust, operator, agent, ingested}
use bridge_db.Context.Sections.{
  Section, Tables, named, section_row, or_agent, rewrite_row, new_section,
}
use bridge_db.Context.Upsert.{cas}
use bridge_db.Context.Protocol.{
  Step, receipt, import_receipt, History, begin, then_write, then_promote, was_promoted,
}
use bridge_db.Context.Promote.{section_promotable, promote_section_row}
use bridge_db.Context.Lookup.{row-update, row-promoted, section_row-named}

-- What a name finds before and after one step: the same row, or one of a greater version that has
-- the same owner, and no new label "operator".
pub record Rewritten (r r' : Section) : Type 0 where
  pub version_grows : r.version < r'.version
  pub same_owner : r'.owner ≡ r.owner

data Stepped : Option Section → Option Section → Type 0 where
  none_yet : Stepped none none
  arrives : {r' : Section} → r'.source_trust ≢ operator → Stepped none (some r')
  same : {r : Section} → Stepped (some r) (some r)
  rewrites :
      {r r' : Section} → Rewritten r r' → r'.source_trust ≢ operator → Stepped (some r) (some r')

-- What a name finds before and after a history with the promotions `ps`: the same row, the same row
-- but for a promotion of its version, or a row of a greater version that has the same owner. What
-- is new has the label "operator" only where its version was promoted.
pub data Later (name : String) (ps : List (String × ℕ))
    : Option Section → Option Section → Type 0 where
  absent : Later name ps none none
  appears :
      {r' : Section}
      → (r'.source_trust ≡ operator → was_promoted name r'.version ps ≡ true)
      → Later name ps none (some r')
  kept : {r : Section} → Later name ps (some r) (some r)
  relabelled :
      {r : Section}
      → was_promoted name r.version ps ≡ true
      → Later name ps (some r) (some (record r { source_trust = operator }))
  replaced :
      {r r' : Section}
      → Rewritten r r'
      → (r'.source_trust ≡ operator → was_promoted name r'.version ps ≡ true)
      → Later name ps (some r) (some r')

or_agent-label : (trust : Option SourceTrust) → trust ≢ some operator → or_agent trust ≢ operator
or_agent-label none h e = cc
or_agent-label (some operator) h e = absurd (h refl)
or_agent-label (some agent) h e = cc
or_agent-label (some ingested) h e = cc

row-Stepped :
    (content : String) (trust : Option SourceTrust) (now : String) (o : Option Section)
    (test : Section → Bool)
    → trust ≢ some operator
    → Stepped o (option_map (λ r. if test r then rewrite_row content trust now r else r) o)
row-Stepped content trust now none test h = none_yet
row-Stepped content trust now (some r) test h = elim (Bool-cases (test r)) [
  | inl e ↦ rw e (
      rewrites (record { version_grows = omega arith; same_owner = refl }) (or_agent-label trust h))
  | inr e ↦ rw e same
]

insert-Stepped :
    (name : String) (row : Section) (o : Option Section)
    → row.source_trust ≢ operator
    → Stepped o (elim o [ none ↦ find (named name) (row ∷ []) | some r ↦ some r ])
insert-Stepped name row (some r) h = same
insert-Stepped name row none h = elim (Bool-cases (row.section_name == name)) [
  | inl e ↦ rw e (arrives h)
  | inr e ↦ rw e none_yet
]

unchanged_row : (o : Option Section) → Stepped o o
unchanged_row none = none_yet
unchanged_row (some r) = same

step-Stepped :
    {t u : Tables} (name : String)
    → Step t u
    → Stepped (section_row name t.sections) (section_row name u.sections)
step-Stepped {t} name (Step.rewrite now w label one fits) =
    rw (row-update (cas w) w.content w.source_trust now name t.sections)
      (row-Stepped w.content w.source_trust now (section_row name t.sections) (cas w) label)
step-Stepped {t} name (Step.insert now w label new fits) =
    let row = new_section w.section_name w.owner w.content w.source_trust now in
    rw (find-append (named name) t.sections (row ∷ []))
      (insert-Stepped name row (section_row name t.sections) (or_agent-label w.source_trust label))
step-Stepped {t} name (receipt l) = unchanged_row (section_row name t.sections)
step-Stepped {t} name (import_receipt i) = unchanged_row (section_row name t.sections)

-- a history, and one step more
chain :
    {a b c : Option Section} (name : String) (ps : List (String × ℕ))
    → Later name ps a b
    → Stepped b c
    → Later name ps a c
chain name ps absent none_yet = absent
chain name ps absent (arrives l) = appears (λ e. absurd (l e))
chain name ps (appears l) same = appears l
chain name ps (appears l) (rewrites w m) = appears (λ e. absurd (m e))
chain name ps kept same = kept
chain name ps kept (rewrites w m) = replaced w (λ e. absurd (m e))
chain name ps (relabelled p) same = relabelled p
chain name ps (relabelled p) (rewrites w m) =
    replaced (record { version_grows = w.version_grows; same_owner = w.same_owner })
      (λ e. absurd (m e))
chain name ps (replaced w l) same = replaced w l
chain name ps (replaced w l) (rewrites v m) =
    replaced
      (record {
        version_grows = omega (arith, w.version_grows, v.version_grows);
        same_owner = v.same_owner ∙ w.same_owner;
      })
      (λ e. absurd (m e))

module _ (name n : String) (v : ℕ) (ps : List (String × ℕ)) where
  more :
      (version : ℕ)
      → was_promoted name version ps ≡ true
      → was_promoted name version ((n, v) ∷ ps) ≡ true
  more version h = ground arith

  -- the row was not promoted
  weaken : {a b : Option Section} → Later name ps a b → Later name ((n, v) ∷ ps) a b
  weaken absent = absent
  weaken (appears {r'} l) = appears (λ e. more r'.version (l e))
  weaken kept = kept
  weaken (relabelled {r} p) = relabelled (more r.version p)
  weaken (replaced {r} {r'} w l) = replaced w (λ e. more r'.version (l e))

  -- the row was promoted
  promoted :
      {a : Option Section} (m : Section)
      → was_promoted name m.version ((n, v) ∷ ps) ≡ true
      → Later name ps a (some m)
      → Later name ((n, v) ∷ ps) a (some (promote_section_row m))
  promoted m p (appears l) = appears (λ e. p)
  promoted m p kept = relabelled p
  promoted m p (relabelled q) = relabelled p
  promoted m p (replaced w l) =
      replaced (record { version_grows = w.version_grows; same_owner = w.same_owner }) (λ e. p)

  found-promoted :
      {a : Option Section} (trust : SourceTrust) (o : Option Section)
      → ((m : Section) → o ≡ some m → named name m ≡ true)
      → Later name ps a o
      → Later name
          ((n, v) ∷ ps)
          a
          (option_map (λ r. if section_promotable n v trust r then promote_section_row r else r) o)
  found-promoted trust none own l = weaken l
  found-promoted trust (some m) own l = elim (Bool-cases (section_promotable n v trust m)) [
    | inr e ↦ rw e (weaken l)
    | inl e ↦ rw e (
        promoted m
          (ground (
            arith,
            own m refl,
            eq_iff m.section_name n,
            eq_iff m.section_name name,
            eq_iff n name,
            nat_beq_iff m.version v,
            nat_beq_iff v m.version,
          ))
          l)
  ]

-- how the row that a name finds changes from one state of the tables to another
abbrev pub LaterTables : List (String × ℕ) → Tables → Tables → Type 0
LaterTables ps t u =
    (name : String) → Later name ps (section_row name t.sections) (section_row name u.sections)

unchanged : (name : String) (o : Option Section) → Later name [] o o
unchanged name none = absent
unchanged name (some r) = kept

-- Over every history of writes and promotions a stored section is never removed and keeps its
-- owner, and its version grows whenever anything but its label changes; while the version stays,
-- the label changes only to "operator", and by a promotion of that version. A section that is new
-- or has a new version has the label "operator" only where a promotion of exactly that name and
-- version is in the history.
pub History-LaterTables :
    {t u : Tables} {ps : List (String × ℕ)} → History t ps u → LaterTables ps t u
History-LaterTables {t} begin name = unchanged name (section_row name t.sections)
History-LaterTables {t} {u} {ps} (then_write h step) name =
    chain name ps (History-LaterTables h name) (step-Stepped name step)
History-LaterTables (then_promote {ps} {t} n v trust one h) name =
    rw (row-promoted (section_promotable n v trust) name t.sections) (
      found-promoted name n v ps trust (section_row name t.sections)
        (section_row-named name t.sections) (History-LaterTables h name))
