-- ===== src/Handoffs/Refinement/Recovery.antt =====
-- `run_recover_orphaned_handoff` as a run of the protocol.
use bridge_db.Prelude.{
  ℕ, String, ◌≡◌, ◌≢◌, refl, Bool, false, ◌||◌, not, Option, none, some, List, [], ◌∷◌, count_where,
  exists, arith, if◌then◌else◌, ◌==◌, ◌!=◌, nat_eq, string_eq,
}
use bridge_db.Models.{Caller}
use bridge_db.Errors.{integrity_error}
use bridge_db.Exec.{Exec, pure, raise, ◌>>=◌}
use bridge_db.Platform.{Platform}
use bridge_db.Handoffs.Tables.{
  Handoff, Capability, Recovery, Tables, active, handoff, capability_of, status_eq,
}
use bridge_db.Handoffs.Store.{Store, get_tables}
use bridge_db.Handoffs.Claim.{utc_text}
use bridge_db.Handoffs.Transaction.{completable}
use bridge_db.Handoffs.Ceremonies.{Ceremony, answered}
use bridge_db.Handoffs.Recover.{
  recovery_digest, recoverable, still_expired, retire, report_recovery, commit_recovery,
  write_recovery, recover_found, recover_locked, lock_and_recover, recover_owned, recover_reviewed,
  run_recover_orphaned_handoff,
}
use bridge_db.Handoffs.Protocol.{Run, Step, here, append_run}
use bridge_db.Handoffs.Refinement.Composed.{Runs, choose}

module _ (pf : Platform) (env : Ceremony) (others : (t : Tables) → Run pf t (env.between t))
    (apart : (h k : Handoff) (c : Capability)
      → recovery_digest pf h none ≢ recovery_digest pf k (some c))
    (id : ℕ) (reason : String) where
  abbrev refused : Exec Store Bool
  refused = pure false

  -- equal digests agree on whether there is a capability
  no_capability :
      (current row : Handoff) (held found : Option Capability)
      → (recovery_digest pf current found != recovery_digest pf row held) ≡ false
      → held ≡ none
      → found ≡ none
  no_capability current row held none e h = refl
  no_capability current row (some c) (some d) e h = cc
  no_capability current row none (some d) e h = absurd (
      apart row current d (
        ground (
          arith,
          string_eq.beq_iff (recovery_digest pf current (some d)) (recovery_digest pf row none),
        )))

  commit_recovery-Runs :
      (row : Handoff) (held : Option Capability) (claimant : Caller) (s : Store)
      (o : Option (List Capability))
      → (held ≡ none → capability_of id s.tables.capabilities ≡ none)
      → count_where (completable id claimant) s.tables.handoffs ≡ 1
      → retire id held (utc_text pf env.stamped_at) s.tables.capabilities ≡ o
      → Run pf s.tables (commit_recovery pf env id reason row held claimant s.tables o s).1.tables
  commit_recovery-Runs row held claimant s none same one e = here
  commit_recovery-Runs row held claimant s (some cs) same one e =
      choose pf (exists (λ (r : Recovery). r.handoff_id == id) s.tables.recoveries)
        (raise integrity_error) (report_recovery pf env id reason row held claimant s.tables cs) s
        (λ _. here)
        (λ _.
          Run.after here (
            Step.recover env id reason row held claimant (utc_text pf env.stamped_at) cs same one
              e))

  recover_found-Runs :
      (row : Handoff) (held : Option Capability) (claimant : Caller) (current : Handoff) (s : Store)
      → Run pf s.tables
          (recover_found pf env id reason row held claimant current
            (capability_of id s.tables.capabilities)
            s).1.tables
  recover_found-Runs row held claimant current s =
      let found = capability_of id s.tables.capabilities in
      let retired = retire id held (utc_text pf env.stamped_at) s.tables.capabilities in
      let write = write_recovery pf env id reason row held claimant in
      choose pf (recovery_digest pf current found != recovery_digest pf row held) refused
        (if not (still_expired pf env.locked_at held found) then refused else write) s (λ _. here)
        (λ same.
          choose pf (not (still_expired pf env.locked_at held found)) refused write s (λ _. here)
            (λ _.
              choose pf (count_where (completable id claimant) s.tables.handoffs != 1) refused
                (commit_recovery pf env id reason row held claimant s.tables retired) s (λ _. here)
                (λ one.
                  commit_recovery-Runs row held claimant s retired
                    (no_capability current row held found same) (ground arith) refl)))

  recover_locked-Runs :
      (row : Handoff) (held : Option Capability) (claimant : Caller) (o : Option Handoff)
      → Runs pf (recover_locked pf env id reason row held claimant o)
  recover_locked-Runs row held claimant none s = here
  recover_locked-Runs row held claimant (some current) s =
      recover_found-Runs row held claimant current s

  recover_owned-Runs :
      (row : Handoff) (held : Option Capability) (o : Option Caller)
      → Runs pf (recover_owned pf env id reason row held o)
  recover_owned-Runs row held none s = here
  recover_owned-Runs row held (some claimant) s =
      let locked = lock_and_recover pf env id reason row held claimant in
      choose pf (row.status != active || not (recoverable pf env.reviewed_at held)) refused
        (if not (answered ("recover" ∷ []) env.answer) then refused else locked) s (λ _. here)
        (λ _.
          choose pf (not (answered ("recover" ∷ []) env.answer)) refused locked s (λ _. here)
            (λ _. append_run pf (others s.tables) (
              recover_locked-Runs row held claimant (handoff id (env.between s.tables).handoffs)
                (record s { tables = env.between s.tables }))))

  recover_reviewed-Runs :
      (held : Option Capability) (o : Option Handoff)
      → Runs pf (recover_reviewed pf env id reason held o)
  recover_reviewed-Runs held none s = here
  recover_reviewed-Runs held (some row) s = recover_owned-Runs row held row.claimed_by s

  -- Whatever other connections commit during the review, as long as they follow the protocol, and
  -- where the digest of an image with a capability is never that of an image without one,
  -- `run_recover_orphaned_handoff` commits a run of the protocol.
  run_recover_orphaned_handoff-Runs :
      (s : Store) → Run pf s.tables (run_recover_orphaned_handoff pf env id reason s).1.tables
  unfolding run_recover_orphaned_handoff
  run_recover_orphaned_handoff-Runs s =
      choose pf (id == 0 || reason == "" || not env.tty) refused
        (get_tables >>= λ t.
          recover_reviewed pf env id reason (capability_of id t.capabilities)
            (handoff id t.handoffs))
        s (λ _. here)
        (λ _.
          recover_reviewed-Runs (capability_of id s.tables.capabilities)
            (handoff id s.tables.handoffs) s)
