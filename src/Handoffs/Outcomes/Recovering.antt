-- ===== src/Handoffs/Outcomes/Recovering.antt =====
-- How `run_recover_orphaned_handoff` ends.
use bridge_db.Prelude.{
  ℕ, String, ◌≡◌, refl, Bool, true, false, ◌&&◌, ◌||◌, not, Option, none, some, List, [], ◌∷◌, ◌++◌,
  count_where, update_where, exists, arith, if◌then◌else◌, ◌==◌, ◌!=◌, nat_eq, string_eq, option_eq,
}
use bridge_db.Models.{Caller, caller_eq}
use bridge_db.Errors.{integrity_error}
use bridge_db.Exec.{Exec, Result, ok, err, pure, raise, ◌>>=◌}
use bridge_db.Platform.{Platform}
use bridge_db.Handoffs.Tables.{
  Handoff, Capability, Recovery, Tables, active, cleared, handoff, capability_of, status_eq,
  status_beq_iff,
}
use bridge_db.Handoffs.Store.{Store, get_tables}
use bridge_db.Handoffs.Claim.{utc_text}
use bridge_db.Handoffs.Transaction.{completable}
use bridge_db.Handoffs.Ceremonies.{Ceremony, answered}
use bridge_db.Handoffs.Recover.{
  recovery_digest, recoverable, still_expired, retire, basis, session_of, expiry_of,
  report_recovery, commit_recovery, write_recovery, recover_locked, lock_and_recover, recover_owned,
  recover_reviewed, run_recover_orphaned_handoff,
}
use bridge_db.Handoffs.Outcomes.Reviews.{digest, Typed, answered-Typed, branch}
use bridge_db.Handoffs.Outcomes.Orphans.{
  both_columns, recovery_digest-columns, same-both, Orphaned, recoverable-Orphaned, StillLapsed,
  still_expired-StillLapsed, Retired, retire-Retired,
}

module _ (pf : Platform) (env : Ceremony) (id : ℕ) (reason : String) where
  -- The answer, and the tables after it, from the tables `t`.
  pub data Recovered (t : Tables) : Result Bool → Tables → Type 0 where
    not_begun : Recovered t (ok false) t
    -- refused under the lock: what others committed stays
    refused_locked : Recovered t (ok false) (env.between t)
    -- the handoff was recovered before
    twice :
        exists (λ (r : Recovery). r.handoff_id == id) (env.between t).recoveries ≡ true
        → Recovered t (err integrity_error) (env.between t)
    -- the claim that was reviewed, unchanged under the lock, with its receipt
    carried_out :
        (row current : Handoff) (claimant : Caller) (capabilities : List Capability)
        → env.tty ≡ true
        → Typed "recover" env.answer
        → handoff id t.handoffs ≡ some row
        → row.status ≡ active
        → row.claimed_by ≡ some claimant
        → Orphaned pf env.reviewed_at (capability_of id t.capabilities)
        → handoff id (env.between t).handoffs ≡ some current
        → digest pf (both_columns current (capability_of id (env.between t).capabilities))
          ≡ digest pf (both_columns row (capability_of id t.capabilities))
        → StillLapsed pf env.locked_at
            (capability_of id t.capabilities)
            (capability_of id (env.between t).capabilities)
        → count_where
            (λ (h : Handoff). h.id == id && h.status == active && h.claimed_by == some claimant)
            (env.between t).handoffs
          ≡ 1
        → Retired id
            (utc_text pf env.stamped_at)
            (env.between t).capabilities
            (capability_of id t.capabilities)
            capabilities
        → (receipt_digest : String)
        → receipt_digest ≡ digest pf (both_columns row (capability_of id t.capabilities))
        → Recovered t (ok true) (record (env.between t) {
          handoffs =
              update_where
                (λ h. h.id == id && h.status == active && h.claimed_by == some claimant)
                (λ h. record h { status = cleared; cleared_at = some env.db_now })
                (env.between t).handoffs;
          capabilities = capabilities;
          recoveries =
              (env.between t).recoveries
              ++ record {
                handoff_id = id;
                reason = reason;
                recovery_basis = basis (capability_of id t.capabilities);
                previous_claimant = claimant;
                claim_session_id = session_of (capability_of id t.capabilities);
                capability_expires_at = expiry_of (capability_of id t.capabilities);
                reviewed_row_sha256 = receipt_digest;
              }
                ∷ [];
        })

  abbrev refused : Exec Store Bool
  refused = pure false

  abbrev locked : Store → Store
  locked s = record s { tables = env.between s.tables }

  abbrev Ends : Store → Result Bool × Store → Type 0
  Ends s r = Recovered s.tables r.0 r.1.tables

  -- what the review found
  abbrev seen_capability : Store → Option Capability
  seen_capability s = capability_of id s.tables.capabilities

  abbrev found_capability : Store → Option Capability
  found_capability s = capability_of id (env.between s.tables).capabilities

  record Reviewed (s : Store) (row : Handoff) (claimant : Caller) : Type 0 where
    at_terminal : env.tty ≡ true
    typed : Typed "recover" env.answer
    stored : handoff id s.tables.handoffs ≡ some row
    is_active : row.status ≡ active
    claimed : row.claimed_by ≡ some claimant
    orphaned : Orphaned pf env.reviewed_at (seen_capability s)

  committed-Recovered :
      (s : Store) (row current : Handoff) (claimant : Caller) (o : Option (List Capability))
      → Reviewed s row claimant
      → handoff id (env.between s.tables).handoffs ≡ some current
      → digest pf (both_columns current (found_capability s))
        ≡ digest pf (both_columns row (seen_capability s))
      → StillLapsed pf env.locked_at (seen_capability s) (found_capability s)
      → count_where (completable id claimant) (env.between s.tables).handoffs ≡ 1
      → retire id
          (seen_capability s)
          (utc_text pf env.stamped_at)
          (env.between s.tables).capabilities
        ≡ o
      → Ends s (
          commit_recovery pf env id reason row
            (seen_capability s)
            claimant
            (env.between s.tables)
            o
            (locked s))
  committed-Recovered s row current claimant none rev found same lapsed one e = refused_locked
  committed-Recovered s row current claimant (some cs) rev found same lapsed one e =
      branch (Recovered s.tables)
        (exists (λ (r : Recovery). r.handoff_id == id) (env.between s.tables).recoveries)
        (raise integrity_error)
        (report_recovery pf env id reason row (seen_capability s) claimant (env.between s.tables)
          cs)
        (locked s) twice
        (λ _.
          carried_out row current claimant cs rev.at_terminal rev.typed rev.stored rev.is_active
            rev.claimed rev.orphaned found same lapsed one
            (retire-Retired id _ _ cs (seen_capability s) e)
            (recovery_digest pf row (seen_capability s))
            (recovery_digest-columns pf row (seen_capability s)))

  locked-Recovered :
      (s : Store) (row : Handoff) (claimant : Caller) (o : Option Handoff)
      → Reviewed s row claimant
      → handoff id (env.between s.tables).handoffs ≡ o
      → Ends s (recover_locked pf env id reason row (seen_capability s) claimant o (locked s))
  locked-Recovered s row claimant none rev found = refused_locked
  locked-Recovered s row claimant (some current) rev found =
      let held = seen_capability s in
      let now_held = found_capability s in
      let write = write_recovery pf env id reason row held claimant in
      branch (Recovered s.tables)
        (recovery_digest pf current now_held != recovery_digest pf row held) refused
        (if not (still_expired pf env.locked_at held now_held) then refused else write) (locked s)
        (λ _. refused_locked)
        (λ same.
          branch (Recovered s.tables) (not (still_expired pf env.locked_at held now_held)) refused
            write (locked s) (λ _. refused_locked)
            (λ lapsed.
              branch (Recovered s.tables)
                (count_where (completable id claimant) (env.between s.tables).handoffs != 1) refused
                _ (locked s) (λ _. refused_locked)
                (λ one.
                  committed-Recovered s row current claimant _ rev found
                    (same-both pf current row now_held held (ground arith))
                    (still_expired-StillLapsed pf env.locked_at held now_held (ground arith))
                    (ground arith) refl)))

  owned-Recovered :
      (s : Store) (row : Handoff) (o : Option Caller)
      → env.tty ≡ true
      → handoff id s.tables.handoffs ≡ some row
      → row.claimed_by ≡ o
      → Ends s (recover_owned pf env id reason row (seen_capability s) o s)
  owned-Recovered s row none tty stored claimed = not_begun
  owned-Recovered s row (some claimant) tty stored claimed =
      let held = seen_capability s in
      let locks = lock_and_recover pf env id reason row held claimant in
      branch (Recovered s.tables)
        (row.status != active || not (recoverable pf env.reviewed_at held)) refused
        (if not (answered ("recover" ∷ []) env.answer) then refused else locks) s (λ _. not_begun)
        (λ fit.
          branch (Recovered s.tables) (not (answered ("recover" ∷ []) env.answer)) refused locks s
            (λ _. not_begun)
            (λ typed.
              locked-Recovered s row claimant _
                (record {
                  at_terminal = tty;
                  typed = answered-Typed "recover" env.answer (ground arith);
                  stored = stored;
                  is_active = (status_beq_iff row.status active).0 (ground arith);
                  claimed = claimed;
                  orphaned = recoverable-Orphaned pf env.reviewed_at held (ground arith);
                })
                refl))

  reviewed-Recovered :
      (s : Store) (o : Option Handoff)
      → env.tty ≡ true
      → handoff id s.tables.handoffs ≡ o
      → Ends s (recover_reviewed pf env id reason (seen_capability s) o s)
  reviewed-Recovered s none tty stored = not_begun
  reviewed-Recovered s (some row) tty stored = owned-Recovered s row row.claimed_by tty stored refl

  -- Every branch of the recovery of an orphaned handoff. It ends only an active claim that the
  -- operator at a terminal reviewed and typed "recover" for, whose capability, where it has one, is
  -- unspent and had lapsed both at the review and under the lock, and only while exactly one such
  -- claim is stored and its row and capability have the same digest of all their columns; it
  -- retires the capability and writes one receipt with the digest. A second receipt of one handoff
  -- is an error, and on every branch but the first nothing is written.
  pub run_recover_orphaned_handoff-Recovered :
      (s : Store)
      → Recovered s.tables
          (run_recover_orphaned_handoff pf env id reason s).0
          (run_recover_orphaned_handoff pf env id reason s).1.tables
  unfolding run_recover_orphaned_handoff
  run_recover_orphaned_handoff-Recovered s =
      branch (Recovered s.tables) (id == 0 || reason == "" || not env.tty) refused
        (get_tables >>= λ t.
          recover_reviewed pf env id reason (capability_of id t.capabilities)
            (handoff id t.handoffs))
        s (λ _. not_begun) (λ e. reviewed-Recovered s _ (ground arith) refl)
