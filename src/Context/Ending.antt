-- ===== src/Context/Ending.antt =====
-- How `_upsert_section` ends, on every branch.
mod Cases
pub use Cases.{
  code, Fitting, Fitting-update, aborts-over, update-Fitting, Ended, too_large, full_update,
  full_insert, taken, doubled, swapped, created, stale, missing,
}
use bridge_db.Prelude.{
  ℕ, ◌+◌, ◌≤◌, ◌<◌, ◌⊎◌, inl, inr, ltb, Bool-cases, find-exists, String, ◌≡◌, refl, Bool, true,
  false, ◌&&◌, Option, none, some, leb, count_where, exists, arith, at_most_one, ◌==◌, nat_eq,
  if◌then◌else◌,
}
use Prim.Native.String.{len}
use bridge_db.Json.{end}
use bridge_db.Platform.{Platform}
use bridge_db.Exec.{Exec, Result, ok, err, ◌>>◌, ◌>>=◌, raise, lift}
use bridge_db.Errors.{
  capacity_exceeded, context_total_exceeded, invariant_violation, integrity_error,
}
use bridge_db.Capacity.{require_utf8_bytes, utf8_size}
use bridge_db.Conflicts.{Ledger}
use bridge_db.Conflicts.Receipts.{Recorded, record_write_conflict-Recorded}
use bridge_db.Session.{sometimes, always_tx}
use bridge_db.Context.Sections.{
  Tables, Store, Section, named, section_row, section_max_bytes, total_max_bytes, total_bytes,
  others_with, insert_aborts, update_aborts,
}
use bridge_db.Context.Upsert.{
  Write, Outcome, written, refused, cas, has_token, conflict_attempt, staged_receipt, conflict_of,
  answer_refused, rewritten, inserted, write_rows, reject_stale, swap, compare_and_swap,
  reject_missing, insert_row, insert_new, without_token, by_token, upsert_section,
}

module _ (pf : Platform) (now : String) (w : Write) where
  abbrev Ends : Store → Result Outcome × Store → Type 0
  Ends s r = Ended now w s.tables r.0 r.1.tables

  branch :
      (b : Bool) (m k : Exec Store Outcome) (s : Store)
      → (b ≡ true → Ends s (m s))
      → (b ≡ false → Ends s (k s))
      → Ends s ((if b then m else k) s)
  branch true m k s p q = p refl
  branch false m k s p q = q refl

  checked_Ends :
      (b : Bool) (k : Exec Store Outcome) (message : String) (s : Store)
      → (b ≡ true → Ends s (k s))
      → (b ≡ false → leb (count_where (cas w) s.tables.sections) 1 ≡ false)
      → Ends s ((always_tx s.tables b 4 message >> k) s)
  checked_Ends true k message s p q = p refl
  checked_Ends false k message s p q = doubled (q refl)

  conflict-Recorded :
      (reason : String) (v : Option ℕ) (u : Option String) (t : Tables)
      → Recorded t.conflicts
          (conflict_of pf now w reason v u end t).0
          (conflict_of pf now w reason v u end t).1
  unfolding conflict_of
  conflict-Recorded reason v u t =
      record_write_conflict-Recorded pf
        (conflict_attempt pf now w reason v u (section_row w.section_name t.sections)) end now
        t.conflicts

  settle_stale :
      (s : Store) (o : Option ℕ) (l : Ledger)
      → has_token w ≡ true
      → count_where (cas w) s.tables.sections ≡ 0
      → Recorded s.tables.conflicts o l
      → Ends s (
          ((λ (x : Store). staged_receipt pf now w x (o, l))
              >>= answer_refused pf now w "stale_cas" s.tables)
            s)
  settle_stale s none l token zero r = absurd (cc (r.is_receipt))
  settle_stale s (some id) l token zero r = stale token zero r

  settle_missing :
      (s : Store) (o : Option ℕ) (l : Ledger) (existing : Section)
      → has_token w ≡ false
      → section_row w.section_name s.tables.sections ≡ some existing
      → Recorded s.tables.conflicts o l
      → Ends s (
          ((λ (x : Store). staged_receipt pf now w x (o, l))
              >>= answer_refused pf now w "missing_cas" s.tables)
            s)
  settle_missing s none l existing token there r = absurd (cc (r.is_receipt))
  settle_missing s (some id) l existing token there r = missing existing token there r

  reject_stale-Ends :
      (s : Store)
      → has_token w ≡ true
      → count_where (cas w) s.tables.sections ≡ 0
      → Ends s (reject_stale pf now w s)
  reject_stale-Ends s token zero =
      let s' : Store = (sometimes "stale_cas_rejection" s).1 in
      settle_stale s' _ _ token zero
        (conflict-Recorded "stale_cas" w.if_match_version w.if_match_updated_at s.tables)

  reject_missing-Ends :
      (s : Store) (existing : Section)
      → has_token w ≡ false
      → section_row w.section_name s.tables.sections ≡ some existing
      → Ends s (reject_missing pf now w s)
  reject_missing-Ends s existing token there =
      let s' : Store = (sometimes "missing_cas_rejection" s).1 in
      settle_missing s' _ _ existing token there
        (conflict-Recorded "missing_cas" none none s.tables)

  swap-Ends :
      (s : Store)
      → has_token w ≡ true
      → len w.content ≤ section_max_bytes
      → (exists (cas w) s.tables.sections
          && update_aborts w.section_name w.content s.tables.sections)
        ≡ false
      → Ends s (swap pf now w s.tables s)
  swap-Ends s token small fits =
      let n = count_where (cas w) s.tables.sections in
      checked_Ends (leb n 1)
        (if n == 0 then reject_stale pf now w else write_rows pf now w (rewritten now w s.tables))
        "INV-4: section CAS update must match at most one row" s
        (λ few.
          branch (n == 0) (reject_stale pf now w) (write_rows pf now w (rewritten now w s.tables)) s
            (λ zero. reject_stale-Ends s token (ground arith))
            (λ found. swapped token (at_most_one n few found) small (
              Fitting-update w s.tables
                (ground (arith, fits, find-exists (cas w) s.tables.sections)))))
        (λ many. many)

  compare_and_swap-Ends :
      (s : Store)
      → has_token w ≡ true
      → len w.content ≤ section_max_bytes
      → Ends s (compare_and_swap pf now w s)
  compare_and_swap-Ends s token small =
      branch
        (exists (cas w) s.tables.sections
          && update_aborts w.section_name w.content s.tables.sections)
        (raise context_total_exceeded) (swap pf now w s.tables) s
        (λ aborts.
          let (over, larger) = aborts-over w s.tables (ground arith) in
          full_update token over larger)
        (λ fits. swap-Ends s token small fits)

  late : Store → Store
  late s = record s { tables = w.between s.tables }

  insert_row-Ends :
      (s : Store)
      → has_token w ≡ false
      → len w.content ≤ section_max_bytes
      → section_row w.section_name s.tables.sections ≡ none
      → Ends s (insert_row pf now w (w.between s.tables) (late s))
  unfolding insert_aborts late
  insert_row-Ends s token small new =
      let t = w.between s.tables in
      let full = insert_aborts w.content t.sections in
      let there = exists (named w.section_name) t.sections in
      let write = write_rows pf now w (inserted now w t) in
      elim (Bool-cases full) [
        | inl e ↦ rw e (full_insert token new (ground arith))
        | inr e ↦ elim (Bool-cases there) [
          | inl f ↦ rw (e, f) (taken token new f)
          | inr f ↦ rw (e, f) (created token new f small (ground arith))
        ]
      ]

  insert_new-Ends :
      (s : Store) (o : Option Section)
      → has_token w ≡ false
      → len w.content ≤ section_max_bytes
      → section_row w.section_name s.tables.sections ≡ o
      → Ends s (insert_new pf now w s.tables o s)
  unfolding late
  insert_new-Ends s (some existing) token small there = reject_missing-Ends s existing token there
  insert_new-Ends s none token small new = insert_row-Ends s token small new

  by_token-Ends : (s : Store) → len w.content ≤ section_max_bytes → Ends s (by_token pf now w s)
  by_token-Ends s small =
      branch (has_token w) (compare_and_swap pf now w) (without_token pf now w) s
        (λ token. compare_and_swap-Ends s token small)
        (λ token. insert_new-Ends s _ token small refl)

  sized :
      (b : Bool) (s : Store)
      → leb (len w.content) section_max_bytes ≡ b
      → Ends s (
          (lift (
                if b
                then ok (len w.content)
                else err (capacity_exceeded code section_max_bytes (len w.content)))
              >> by_token pf now w)
            s)
  sized true s e = by_token-Ends s (ground arith)
  sized false s e = too_large e

  -- Every branch of a section's write. It is refused with an error, and writes nothing, where the
  -- content is over its own limit, where a trigger finds the contents of all sections over theirs,
  -- where more than one row has the token, and where others stored the name between the SELECT and
  -- the INSERT. With a token it rewrites the one row that has it, within both limits, or leaves the
  -- sections as they are and records the receipt of a stale write. Without a token it creates a
  -- section whose name is free, within both limits, or leaves the sections as they are and records
  -- the receipt of a write that named no version.
  pub upsert_section-Ended :
      (s : Store)
      → Ended now w s.tables (upsert_section pf now w s).0 (upsert_section pf now w s).1.tables
  unfolding upsert_section require_utf8_bytes utf8_size
  upsert_section-Ended s = sized (leb (len w.content) section_max_bytes) s refl
