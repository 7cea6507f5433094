-- ===== src/Handoffs/Outcomes/Reviews.antt =====
-- What the operator's ceremonies on a handoff compare and ask for, written out.
use bridge_db.Prelude.{
  String, ◌≡◌, sym, ◌∙◌, eq_iff, string_eq, Bool, true, false, ◌⊎◌, inl, inr, refl, Option, none,
  some, List, [], ◌∷◌, codes, strip, lower, arith, Bool-cases, ◌==◌, list_eq, nat_eq, if◌then◌else◌,
}
use bridge_db.Models.{trust_name}
use bridge_db.Json.{Json, Fields, field, end, int, string, object}
use bridge_db.Platform.{Platform}
use bridge_db.Exec.{Exec, Result}
use bridge_db.Handoffs.Tables.{Handoff, Tables, status_name}
use bridge_db.Handoffs.Store.{Store}
use bridge_db.Handoffs.Claim.{text_or_null, name_or_null}
use bridge_db.Handoffs.Ceremonies.{agreed, answered, row_fields, row_json, row_digest}

abbrev pub fields_of : List (String × Json) → Fields → Fields
fields_of [] rest = rest
fields_of ((key, value) ∷ more) rest = field key value (fields_of more rest)

-- every column of a handoff
abbrev pub columns : Handoff → List (String × Json)
columns h =
    ("id", int h.id)
    ∷ ("project_name", string h.project_name)
    ∷ ("project_path", text_or_null h.project_path)
    ∷ ("roadmap_file", text_or_null h.roadmap_file)
    ∷ ("phase", text_or_null h.phase)
    ∷ ("dispatched_from", string h.dispatched_from)
    ∷ ("dispatched_at", string h.dispatched_at)
    ∷ ("picked_up_at", text_or_null h.picked_up_at)
    ∷ ("cleared_at", text_or_null h.cleared_at)
    ∷ ("canonical_key", text_or_null h.canonical_key)
    ∷ ("source_trust", string (trust_name h.source_trust))
    ∷ ("status", string (status_name h.status))
    ∷ ("claimed_by", name_or_null h.claimed_by)
    ∷ []

-- the digest of an image
abbrev pub digest : Platform → List (String × Json) → String
digest pf image = pf.sha256 (pf.dumps (object (fields_of image end)))

pub row_digest-columns : (pf : Platform) (h : Handoff) → row_digest pf h ≡ digest pf (columns h)
unfolding row_fields row_json row_digest
row_digest-columns pf h = refl

-- Equal digests are equal digests of all columns.
pub same-columns :
    (pf : Platform) (h k : Handoff)
    → (row_digest pf h == row_digest pf k) ≡ true
    → digest pf (columns h) ≡ digest pf (columns k)
same-columns pf h k e =
    sym (row_digest-columns pf h)
    ∙ (eq_iff (row_digest pf h) (row_digest pf k)).0 e
    ∙ row_digest-columns pf k

-- the operator answered with y or yes
abbrev pub SaidYes : Option String → Type 0
SaidYes answer =
    (a : String) × (answer ≡ some a)
    × ((lower (strip (codes a)) ≡ codes "y") ⊎ (lower (strip (codes a)) ≡ codes "yes"))

-- the operator typed the word
abbrev pub Typed : String → Option String → Type 0
Typed word answer = (a : String) × (answer ≡ some a) × (strip (codes a) ≡ codes word)

pub agreed-SaidYes : (o : Option String) → agreed o ≡ true → SaidYes o
agreed-SaidYes none h = absurd (cc h)
agreed-SaidYes (some a) h =
    let reply = lower (strip (codes a)) in
    elim (Bool-cases (reply == codes "y")) [
      | inl e ↦ (a, refl, inl ((list_eq.beq_iff reply (codes "y")).0 e))
      | inr e ↦ (a, refl, inr ((list_eq.beq_iff reply (codes "yes")).0 (ground (arith, e))))
    ]

pub answered-Typed :
    (word : String) (o : Option String) → answered (word ∷ []) o ≡ true → Typed word o
answered-Typed word none h = absurd (cc h)
answered-Typed word (some a) h =
    (a, refl, (list_eq.beq_iff (strip (codes a)) (codes word)).0 (ground arith))

-- A branch of a ceremony, for any predicate of its answer and the tables after it.
pub branch :
    (Ends : Result Bool → Tables → Type 0) (b : Bool) (m k : Exec Store Bool) (s : Store)
    → (b ≡ true → Ends (m s).0 (m s).1.tables)
    → (b ≡ false → Ends (k s).0 (k s).1.tables)
    → Ends ((if b then m else k) s).0 ((if b then m else k) s).1.tables
branch Ends true m k s p q = p refl
branch Ends false m k s p q = q refl
