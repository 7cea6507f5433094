-- ===== src/Context/Protocol.antt =====
-- What one committed transaction on the context sections may do. A step is what the tools write; a
-- history is what the tools and the operator's promotions commit.
use bridge_db.Prelude.{
  ℕ, String, ◌≡◌, ◌≢◌, Bool, false, ◌&&◌, ◌||◌, none, some, List, ◌∷◌, ◌++◌, [], count_where, ◌==◌,
  nat_eq, string_eq,
}
use bridge_db.Models.{SourceTrust, operator}
use bridge_db.Conflicts.{Ledger}
use bridge_db.Session.Runs.{Commits}
use bridge_db.Context.Sections.{Import, Tables, section_row, insert_aborts, update_aborts}
use bridge_db.Context.Upsert.{Write, cas, rewritten, inserted}
use bridge_db.Context.Promote.{section_promotable, section_promoted}

pub data Step : Tables → Tables → Type 0 where
  -- a compare-and-swap of the row that has the token: never with operator trust
  rewrite :
      {t : Tables} (now : String) (w : Write)
      → w.source_trust ≢ some operator
      → count_where (cas w) t.sections ≡ 1
      → update_aborts w.section_name w.content t.sections ≡ false
      → Step t (rewritten now w t)
  -- a section that was not there
  insert :
      {t : Tables} (now : String) (w : Write)
      → w.source_trust ≢ some operator
      → section_row w.section_name t.sections ≡ none
      → insert_aborts w.content t.sections ≡ false
      → Step t (inserted now w t)
  -- the receipt of a refused write
  receipt : {t : Tables} (l : Ledger) → Step t (record t { conflicts = l })
  -- the receipt of an import
  import_receipt : {t : Tables} (i : Import) → Step t (record t { imports = t.imports ++ i ∷ [] })

pub data Run (s : Tables) : Tables → Type 0 where
  start : Run s s
  after : {t u : Tables} → Run s t → Step t u → Run s u

pub append_run : {s t u : Tables} → Run s t → Run t u → Run s u
append_run p start = p
append_run p (after q st) = after (append_run p q) st

abbrev pub commits : Commits Tables
commits = record { to = Run; here = λ t. start; join = append_run }

-- A history of steps and promotions, with the names and versions that were promoted.
pub data History (s : Tables) : List (String × ℕ) → Tables → Type 0 where
  begin : History s [] s
  then_write : {ps : List (String × ℕ)} {t u : Tables} → History s ps t → Step t u → History s ps u
  -- run_promote_section
  then_promote :
      {ps : List (String × ℕ)} {t : Tables} (name : String) (version : ℕ) (trust : SourceTrust)
      → count_where (section_promotable name version trust) t.sections ≡ 1
      → History s ps t
      → History s ((name, version) ∷ ps) (section_promoted name version trust t)

-- A run is a history without promotions.
pub run-History : {s t : Tables} → Run s t → History s [] t
run-History start = begin
run-History (after run step) = then_write (run-History run) step

abbrev pub was_promoted : String → ℕ → List (String × ℕ) → Bool
was_promoted name version [] = false
was_promoted name version ((n, v) ∷ ps) =
    (n == name && v == version) || was_promoted name version ps
