-- ===== src/Context/Refinement.antt =====
-- The tools of the context sections as runs of the protocol.
use bridge_db.Prelude.{
  ℕ, String, ◌≡◌, ◌≢◌, refl, false, Option, none, some, leb, count_where, exists, arith,
  at_most_one, ◌&&◌, ◌==◌, nat_eq, find-exists, find-none_iff, if◌then◌else◌,
}
use bridge_db.Models.{operator}
use bridge_db.Json.{Fields, end}
use bridge_db.Platform.{Platform}
use bridge_db.Exec.{Exec, raise}
use bridge_db.Errors.{context_total_exceeded, integrity_error}
use bridge_db.Capacity.{require_utf8_bytes}
use bridge_db.Conflicts.{Ledger}
use bridge_db.Session.{sometimes}
use bridge_db.Session.Runs.{Runs, choose, checked, lifted, sequence}
use bridge_db.Context.Sections.{
  Tables, Store, Section, named, section_row, section_max_bytes, insert_aborts, update_aborts,
}
use bridge_db.Context.Upsert.{
  Write, Outcome, cas, has_token, staged_receipt, conflict_of, record_section_conflict,
  answer_refused, refuse, rewritten, reject_stale, swap, write_rows, compare_and_swap,
  reject_missing, insert_row, insert_new, without_token, by_token, upsert_section, inserted,
}
use bridge_db.Context.Protocol.{Step, Run, start, receipt, append_run, commits}

module _ (pf : Platform) (now : String) (w : Write) where
  staged-Runs :
      (s : Store) (o : Option ℕ) (l : Ledger)
      → Run s.tables (staged_receipt pf now w s (o, l)).1.tables
  staged-Runs s none l = start
  staged-Runs s (some id) l = Run.after start (receipt l)

  pub record_section_conflict-Runs :
      (reason : String) (v : Option ℕ) (u : Option String) (detail : Fields)
      → Runs commits (record_section_conflict pf now w reason v u detail)
  record_section_conflict-Runs reason v u detail s =
      let written = conflict_of pf now w reason v u detail s.tables in
      staged-Runs s written.0 written.1

  refuse-Runs :
      (reason : String) (v : Option ℕ) (u : Option String)
      → Runs commits (refuse pf now w reason v u)
  refuse-Runs reason v u s =
      sequence commits (record_section_conflict pf now w reason v u end)
        (answer_refused pf now w reason s.tables) (record_section_conflict-Runs reason v u end)
        (λ a s. start) s

  reject_stale-Runs : Runs commits (reject_stale pf now w)
  reject_stale-Runs =
      sequence commits (sometimes "stale_cas_rejection")
        (λ _. refuse pf now w "stale_cas" w.if_match_version w.if_match_updated_at) (λ s. start)
        (λ _. refuse-Runs "stale_cas" w.if_match_version w.if_match_updated_at)

  reject_missing-Runs : Runs commits (reject_missing pf now w)
  reject_missing-Runs =
      sequence commits (sometimes "missing_cas_rejection")
        (λ _. refuse pf now w "missing_cas" none none) (λ s. start)
        (λ _. refuse-Runs "missing_cas" none none)

module _ (pf : Platform) (now : String) (w : Write) (label : w.source_trust ≢ some operator)
    (others : has_token w ≡ false → (t : Tables) → Run t (w.between t)) where
  swap-Runs :
      (s : Store)
      → (exists (cas w) s.tables.sections
          && update_aborts w.section_name w.content s.tables.sections)
        ≡ false
      → Run s.tables (swap pf now w s.tables s).1.tables
  swap-Runs s fits =
      let n = count_where (cas w) s.tables.sections in
      let rest : Exec Store Outcome =
        if n == 0 then reject_stale pf now w else write_rows pf now w (rewritten now w s.tables) in
      checked commits (leb n 1) 4 "INV-4: section CAS update must match at most one row" rest s
        (λ few.
          choose commits (n == 0) (reject_stale pf now w)
            (write_rows pf now w (rewritten now w s.tables)) s (λ _. reject_stale-Runs pf now w s)
            (λ found. Run.after start (
              Step.rewrite now w label (at_most_one n few found)
                (ground (arith, fits, find-exists (cas w) s.tables.sections)))))

  compare_and_swap-Runs : Runs commits (compare_and_swap pf now w)
  compare_and_swap-Runs s =
      choose commits
        (exists (cas w) s.tables.sections
          && update_aborts w.section_name w.content s.tables.sections)
        (raise context_total_exceeded) (swap pf now w s.tables) s (λ _. start) (swap-Runs s)

  abbrev late : Store → Store
  late s = record s { tables = w.between s.tables }

  insert_row-Runs : (s : Store) → Run s.tables (insert_row pf now w s.tables s).1.tables
  insert_row-Runs s =
      let there = exists (named w.section_name) s.tables.sections in
      let write = write_rows pf now w (inserted now w s.tables) in
      choose commits (insert_aborts w.content s.tables.sections) (raise context_total_exceeded)
        (if there then raise integrity_error else write) s (λ _. start)
        (λ fits.
          choose commits there (raise integrity_error) write s (λ _. start)
            (λ free. Run.after start (
              Step.insert now w label
                (find-none_iff (named w.section_name) s.tables.sections
                  (find-exists (named w.section_name) s.tables.sections free))
                fits)))

  insert_new-Runs :
      (s : Store) (o : Option Section)
      → has_token w ≡ false
      → section_row w.section_name s.tables.sections ≡ o
      → Run s.tables (insert_new pf now w s.tables o s).1.tables
  insert_new-Runs s (some existing) token e = reject_missing-Runs pf now w s
  insert_new-Runs s none token e = append_run (others token s.tables) (insert_row-Runs (late s))

  by_token-Runs : Runs commits (by_token pf now w)
  by_token-Runs s =
      choose commits (has_token w) (compare_and_swap pf now w) (without_token pf now w) s
        (λ _. compare_and_swap-Runs s)
        (λ token. insert_new-Runs s (section_row w.section_name s.tables.sections) token refl)

  pub upsert_section-Runs : Runs commits (upsert_section pf now w)
  unfolding upsert_section
  upsert_section-Runs s =
      lifted commits
        (require_utf8_bytes (some w.content) section_max_bytes
          "context.section_utf8_bytes_exceeded")
        (λ _. by_token pf now w) s (λ _ _. by_token-Runs s)
