-- ===== src/Handoffs/Invariant.antt =====
-- What holds of the handoff tables between two transactions, and each step keeps.
mod Defs
mod Creation
mod Claiming
mod Ending
pub use Defs.{row_id, owner_id, coherent, Inv, empty, empty-Inv}
use bridge_db.Prelude.{refl}
use bridge_db.Handoffs.Tables.{Tables}
use bridge_db.Models.{operator, ingested}
use bridge_db.Handoffs.Ceremonies.{promotable}
use bridge_db.Handoffs.Quarantine.{quarantinable, restorable}
use bridge_db.Platform.{Platform}
use bridge_db.Handoffs.Protocol.{
  Step, Run, create, claim, complete, promote, cancel, recover, quarantine, restore, receipt, here,
  after,
}
use Creation.{insert_handoff-Inv, relabelled-Inv}
use Claiming.{claim-Inv}
pub use Claiming.{uncovered}
use Ending.{complete-Inv, recover-Inv, cancel-Inv}

module _ (pf : Platform) where
  -- Each step of the handoff protocol keeps the invariant of the tables.
  pub Step-Inv : {s t : Tables} → Step pf s t → Inv s → Inv t
  Step-Inv (create p key trust now id _ e) inv = insert_handoff-Inv _ inv p key trust now id _ e
  Step-Inv (claim id caller m now capabilities _ one e) inv =
      claim-Inv _ inv id caller now _ capabilities (refl, refl, refl, refl) one e
  Step-Inv (complete id hash caller name now at clock seen live one spent) inv =
      complete-Inv _ id hash caller name now at seen inv one spent
  Step-Inv (promote id trust _) inv = relabelled-Inv _ (promotable id trust) operator _ inv
  Step-Inv (cancel env id reason row unended _) inv = cancel-Inv pf env _ id reason row inv unended
  Step-Inv (recover env id reason row held claimant at capabilities same one e) inv =
      recover-Inv pf env _ id reason row held claimant at capabilities inv same one e
  Step-Inv (quarantine id image _ _) inv = relabelled-Inv _ (quarantinable id) ingested _ inv
  Step-Inv (restore id now _) inv = relabelled-Inv _ (restorable id) operator _ inv
  Step-Inv (receipt l) inv = record {
    unique = inv.unique;
    fresh = inv.fresh;
    one_capability = inv.one_capability;
    coherence = inv.coherence;
  }

  -- In any run of committed transactions from tables that satisfy it, the invariant holds at the end: no two
  -- handoffs or capabilities share an id, and every handoff agrees with the capability under its
  -- id.
  pub Run-Inv : {s t : Tables} → Run pf s t → Inv s → Inv t
  Run-Inv here inv = inv
  Run-Inv (after p st) inv = Step-Inv st (Run-Inv p inv)
