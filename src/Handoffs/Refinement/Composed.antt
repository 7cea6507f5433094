-- ===== src/Handoffs/Refinement/Composed.antt =====
-- How a computation that is composed of runs of the protocol is one: Session/Runs for the runs of
-- the handoff protocol.
use bridge_db.Prelude.{◌≡◌, refl, Bool, true, false, Option, none, some, ℕ, String, if◌then◌else◌}
use bridge_db.Errors.{ToolError}
use bridge_db.Exec.{Exec, Result, ok, ◌>>=◌, ◌>>◌, raise_if, bind_result}
use bridge_db.Audit.{Trail}
use bridge_db.Platform.{Platform}
use bridge_db.Conflicts.{Ledger}
use bridge_db.Session.Runs as Composition
use bridge_db.Session.Runs.{Commits}
use bridge_db.Handoffs.Tables.{Tables}
use bridge_db.Handoffs.Store.{Store, gate, always_tx}
use bridge_db.Handoffs.Claim.{stage_conflict, staged_receipt}
use bridge_db.Handoffs.Protocol.{Run, here, receipt, append_run}

abbrev commits : Platform → Commits Tables
commits pf = record { to = Run pf; here = λ t. here; join = append_run pf }

module _ (pf : Platform) {A : Type 0} where
  -- what the computation commits is a run of the protocol
  abbrev pub Runs : Exec Store A → Type 0
  Runs = Composition.Runs (commits pf)

  pub gated : (m : Exec Trail A) → Runs (gate m)
  gated = Composition.gated (commits pf)

  pub choose :
      (b : Bool) (m k : Exec Store A) (s : Store)
      → (b ≡ true → Run pf s.tables (m s).1.tables)
      → (b ≡ false → Run pf s.tables (k s).1.tables)
      → Run pf s.tables ((if b then m else k) s).1.tables
  choose = Composition.choose (commits pf)

  pub checked :
      (b : Bool) (number : ℕ) (message : String) (k : Exec Store A) (s : Store)
      → (b ≡ true → Run pf s.tables (k s).1.tables)
      → Run pf s.tables ((always_tx s.tables b number message >> k) s).1.tables
  checked = Composition.checked (commits pf)

  -- an argument of the tool that is refused
  pub guarded :
      (b : Bool) (e : ToolError) (k : Exec Store A)
      → (b ≡ false → Runs k)
      → Runs (raise_if b e >> k)
  guarded true e k p s = here
  guarded false e k p s = p refl s

module _ (pf : Platform) {A B : Type 0} where
  -- a sequence, where the rest may use what the first part gives
  pub sequence_with :
      (m : Exec Store A) (f : A → Exec Store B)
      → Runs pf m
      → ((a : A) (s : Store) → (m s).0 ≡ ok a → Runs pf (f a))
      → Runs pf (m >>= f)
  sequence_with = Composition.sequence_with (commits pf)

  pub sequence :
      (m : Exec Store A) (f : A → Exec Store B)
      → Runs pf m
      → ((a : A) → Runs pf (f a))
      → Runs pf (m >>= f)
  sequence = Composition.sequence (commits pf)

  -- a check of the arguments, before the rest
  pub lifted :
      (r : Result A) (f : A → Exec Store B) (s : Store)
      → ((a : A) → Run pf s.tables (f a s).1.tables)
      → Run pf s.tables (bind_result r f s).1.tables
  lifted r f s p = Composition.lifted (commits pf) r f s (λ a _. p a)

module _ (pf : Platform) where
  receipt_run :
      (s : Store) (o : Option ℕ) (l : Ledger) → Run pf s.tables (staged_receipt s o l).1.tables
  receipt_run s none l = here
  receipt_run s (some id) l = Run.after here (receipt l)

  pub receipted : (write : Ledger → Option ℕ × Ledger) → Runs pf (stage_conflict write)
  receipted write s = receipt_run s (write s.tables.conflicts).0 (write s.tables.conflicts).1
