-- ===== src/Handoffs/Protocol.antt =====
-- The handoff protocol as a step relation on the tables: what one committed transaction may do.
-- The tools and the ceremonies of Handoffs/Ceremonies and Recover are paths of these steps
-- (Handoffs/Refinement.antt); the two ceremonies of the trust quarantine are steps alone.
use bridge_db.Prelude.{
  ℕ, String, ◌≡◌, ◌≢◌, true, Option, none, some, List, count_where, update_where, nat_eq,
}
use bridge_db.Models.{Caller, SourceTrust, operator}
use bridge_db.Platform.{Platform}
use bridge_db.Conflicts.{Ledger}
use bridge_db.Handoffs.Quarantine.{quarantinable, quarantined_tables, restorable, restored_tables}
use bridge_db.Handoffs.Tables.{Handoff, Capability, Quarantined, Tables, cleared, capability_of}
use bridge_db.Handoffs.Create.{Payload, insert_handoff}
use bridge_db.Handoffs.Claim.{claimants, Mint, minted, claimable, claimed, insert_capability}
use bridge_db.Handoffs.Transaction.{
  locked_row, still_live, completable, consumable, completed_tables,
}
use bridge_db.Handoffs.Ceremonies.{promotable, promote_row, Ceremony, cancellable, cancelled_tables}
use bridge_db.Handoffs.Recover.{retire, recovered_tables}

module _ (pf : Platform) where
  -- One committed transaction.
  pub data Step : Tables → Tables → Type 0 where
    -- create_handoff: never with operator trust
    create :
        {t t' : Tables} (p : Payload) (key : Option String) (trust : SourceTrust) (now : String)
        (id : ℕ)
        → trust ≢ operator
        → insert_handoff p key trust now t ≡ some (id, t')
        → Step t t'
    -- pick_up_handoff: one pending row of operator trust, and its capability
    claim :
        {t : Tables} (id : ℕ) (caller : Caller) (m : Mint) (now : String)
        (capabilities : List Capability)
        → claimants caller ≡ true
        → count_where (claimable id operator) t.handoffs ≡ 1
        → insert_capability (minted pf id caller m) t.capabilities ≡ some capabilities
        → Step t (record (claimed id operator caller now t) { capabilities = capabilities })
    -- clear_handoff: the live capability is consumed with the claim
    complete :
        {t : Tables} (id : ℕ) (hash : String) (caller : Caller) (name now consumed_at : String)
        (clock : ℕ) (seen : Handoff)
        → still_live pf caller clock (locked_row id hash t) ≡ true
        → count_where (completable id caller) t.handoffs ≡ 1
        → count_where (consumable id hash) t.capabilities ≡ 1
        → Step t (completed_tables id hash caller name now consumed_at seen t)
    -- run_promote_handoff
    promote :
        {t : Tables} (id : ℕ) (trust : SourceTrust)
        → count_where (promotable id trust) t.handoffs ≡ 1
        → Step t (record t { handoffs = update_where (promotable id trust) promote_row t.handoffs })
    -- run_cancel_handoff
    cancel :
        {t : Tables} (env : Ceremony) (id : ℕ) (reason : String) (row : Handoff)
        → row.status ≢ cleared
        → count_where (cancellable id row.status) t.handoffs ≡ 1
        → Step t (cancelled_tables pf env id reason row t)
    -- run_recover_orphaned_handoff
    recover :
        {t : Tables} (env : Ceremony) (id : ℕ) (reason : String) (row : Handoff)
        (held : Option Capability) (claimant : Caller) (at : String)
        (capabilities : List Capability)
        → (held ≡ none → capability_of id t.capabilities ≡ none)
        → count_where (completable id claimant) t.handoffs ≡ 1
        → retire id held at t.capabilities ≡ some capabilities
        → Step t (recovered_tables pf env id reason row held claimant capabilities t)
    -- run_quarantine_cleared_operator_handoffs, for each row of its transaction
    quarantine :
        {t : Tables} (id : ℕ) (image : Quarantined)
        → image.handoff_id ≡ id
        → count_where (quarantinable id) t.handoffs ≡ 1
        → Step t (quarantined_tables id image t)
    -- run_restore_handoff_trust
    restore :
        {t : Tables} (id : ℕ) (now : String)
        → count_where (restorable id) t.handoffs ≡ 1
        → Step t (restored_tables id now t)
    -- the receipt of a refused claim
    receipt : {t : Tables} (l : Ledger) → Step t (record t { conflicts = l })

  pub data Run (s : Tables) : Tables → Type 0 where
    here : Run s s
    after : {t u : Tables} → Run s t → Step t u → Run s u

  pub append_run : {s t u : Tables} → Run s t → Run t u → Run s u
  append_run p here = p
  append_run p (after q st) = after (append_run p q) st
