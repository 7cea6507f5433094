-- ===== src/Audit.antt =====
-- src/bridge_db/audit.py: the audit trail as the list of the events that `log_audit` was given,
-- the newest last. The time stamp and the file that holds the events are not modelled.
use bridge_db.Prelude.{String, Bool, Option, List, [], ◌∷◌, ◌++◌}
use bridge_db.Exec.{Exec, ok}

pub record Event : Type 0 where
  pub tool : String
  pub caller : Option String
  pub project : Option String
  pub done : Bool
  pub detail : Option String

abbrev pub Trail : Type 0
Trail = List Event

abbrev pub log_audit :
    String → Option String → Option String → Bool → Option String → Exec Trail (Unit {0})
log_audit tool caller project done detail trail = (
  ok tt,
  trail
      ++ record { tool = tool; caller = caller; project = project; done = done; detail = detail }
        ∷ [],
)
