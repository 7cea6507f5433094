-- ===== src/Session.antt =====
-- The state that a tool works on: the database tables that its connection sees, and the audit
-- trail. A rollback gives the tables back and leaves the trail.
pub mod Runs
use bridge_db.Prelude.{ℕ, String, Bool, true, false, Option, none, some}
use bridge_db.Errors.{invariant_violation}
use bridge_db.Exec.{Exec, ok, err}
use bridge_db.Audit.{Trail, log_audit}

pub record Session (T : Type 0) : Type 0 where
  pub tables : T
  pub trail : Trail

module _ {T : Type 0} where
  -- A computation on the trail alone.
  abbrev pub gate : {A : Type 0} → Exec Trail A → Exec (Session T) A
  gate m s = let (r, trail) = m s.trail in (r, record s { trail = trail })

  abbrev pub audit :
      String → Option String → Option String → Bool → Option String → Exec (Session T) (Unit {0})
  audit tool caller project done detail = gate (log_audit tool caller project done detail)

  -- invariants.sometimes: the counter of a label is the number of these events
  abbrev pub sometimes : String → Exec (Session T) (Unit {0})
  sometimes label = audit "invariant.sometimes" none none true (some label)

  abbrev pub get_tables : Exec (Session T) T
  get_tables s = (ok s.tables, s)

  -- Stages tables; what is staged is committed with the computation that stages it.
  abbrev pub put_tables : T → Exec (Session T) (Unit {0})
  put_tables t s = (ok tt, record s { tables = t })

  -- invariants.always_tx, the event without its context: a broken invariant rolls back to
  -- `before`, and is logged and raised
  abbrev pub always_tx : T → Bool → ℕ → String → Exec (Session T) (Unit {0})
  always_tx before true number message s = (ok tt, s)
  always_tx before false number message s =
      let (_, s') =
        audit "invariant.violation" none none false (some message) (record s { tables = before }) in
      (err (invariant_violation number), s')
