-- ===== src/Context/Ending/Cases.antt =====
-- How a write of a section may end: the answers of `_upsert_section`, each with the tables after it.
use bridge_db.Prelude.{
  ℕ, ◌+◌, ◌≤◌, ◌<◌, ◌⊎◌, inl, inr, ltb, Bool-cases, String, ◌≡◌, true, false, none, some, leb,
  count_where, exists, arith, nat_eq,
}
use Prim.Native.String.{len}
use bridge_db.Exec.{Result, ok, err}
use bridge_db.Errors.{
  capacity_exceeded, context_total_exceeded, invariant_violation, integrity_error,
}
use bridge_db.Conflicts.{Ledger}
use bridge_db.Conflicts.Receipts.{Recorded}
use bridge_db.Context.Sections.{
  Tables, Section, named, section_row, section_max_bytes, total_max_bytes, total_bytes, others_with,
  update_aborts,
}
use bridge_db.Context.Upsert.{Write, Outcome, written, refused, cas, has_token, rewritten, inserted}

abbrev pub code : String
code = "context.section_utf8_bytes_exceeded"

-- A rewrite within the limit of all contents together, or one that does not make them larger.
abbrev pub Fitting : Write → Tables → Type 0
Fitting w t =
    (others_with w.section_name w.content t.sections ≤ total_max_bytes)
    ⊎ (others_with w.section_name w.content t.sections ≤ total_bytes t.sections)

pub Fitting-update :
    (w : Write) (t : Tables)
    → update_aborts w.section_name w.content t.sections ≡ false
    → Fitting w t
unfolding update_aborts
Fitting-update w t h =
    let after = others_with w.section_name w.content t.sections in
    elim (Bool-cases (ltb total_max_bytes after)) [
      | inr e ↦ inl (ground arith)
      | inl e ↦ inr (ground arith)
    ]

pub aborts-over :
    (w : Write) (t : Tables)
    → update_aborts w.section_name w.content t.sections ≡ true
    → (total_max_bytes < others_with w.section_name w.content t.sections)
      × (total_bytes t.sections < others_with w.section_name w.content t.sections)
unfolding update_aborts
aborts-over w t h = (ground arith, ground arith)

pub update-Fitting :
    (w : Write) (t : Tables)
    → Fitting w t
    → update_aborts w.section_name w.content t.sections ≡ false
unfolding update_aborts
update-Fitting w t (inl h) = ground arith
update-Fitting w t (inr h) = ground arith

-- The answer and the tables after it, from the tables `t`.
pub data Ended (now : String) (w : Write) (t : Tables) : Result Outcome → Tables → Type 0 where
  -- the content is over its own limit
  too_large :
      leb (len w.content) section_max_bytes ≡ false
      → Ended now w t (err (capacity_exceeded code section_max_bytes (len w.content))) t
  -- the contents would be over the limit of all together
  full_update :
      has_token w ≡ true
      → total_max_bytes < others_with w.section_name w.content t.sections
      → total_bytes t.sections < others_with w.section_name w.content t.sections
      → Ended now w t (err context_total_exceeded) t
  full_insert :
      has_token w ≡ false
      → section_row w.section_name t.sections ≡ none
      → total_max_bytes < total_bytes (w.between t).sections + len w.content
      → Ended now w t (err context_total_exceeded) (w.between t)
  -- the name was taken between the SELECT and the INSERT
  taken :
      has_token w ≡ false
      → section_row w.section_name t.sections ≡ none
      → exists (named w.section_name) (w.between t).sections ≡ true
      → Ended now w t (err integrity_error) (w.between t)
  -- more than one row has the token
  doubled :
      leb (count_where (cas w) t.sections) 1 ≡ false → Ended now w t (err (invariant_violation 4)) t
  swapped :
      has_token w ≡ true
      → count_where (cas w) t.sections ≡ 1
      → len w.content ≤ section_max_bytes
      → Fitting w t
      → Ended now w t (ok written) (rewritten now w t)
  created :
      has_token w ≡ false
      → section_row w.section_name t.sections ≡ none
      → exists (named w.section_name) (w.between t).sections ≡ false
      → len w.content ≤ section_max_bytes
      → total_bytes (w.between t).sections + len w.content ≤ total_max_bytes
      → Ended now w t (ok written) (inserted now w (w.between t))
  -- a refusal changes nothing but the ledger, which has its receipt
  stale :
      {receipt : ℕ} {l : Ledger}
      → has_token w ≡ true
      → count_where (cas w) t.sections ≡ 0
      → Recorded t.conflicts (some receipt) l
      → Ended now w t
          (ok (refused "stale_cas" receipt (section_row w.section_name t.sections)))
          (record t { conflicts = l })
  missing :
      {receipt : ℕ} {l : Ledger} (existing : Section)
      → has_token w ≡ false
      → section_row w.section_name t.sections ≡ some existing
      → Recorded t.conflicts (some receipt) l
      → Ended now w t
          (ok (refused "missing_cas" receipt (section_row w.section_name t.sections)))
          (record t { conflicts = l })
