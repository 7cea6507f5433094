-- ===== src/Handoffs/Outcomes/Finishing.antt =====
-- The two answers of `clear_handoff`, and the tables that its transaction leaves.
use mathlib.Core.Path.{◌∙◌}
use bridge_db.Prelude.{
  update_where, eq_iff, option_beq_iff, ℕ, String, ◌≡◌, refl, Bool, true, false, Option, none, some,
  List, count_where, arith, nat_eq, find_of_count_where, find-update_where,
}
use bridge_db.Models.{Caller, caller_eq}
use bridge_db.Exec.{Result, ok, err, ◌>>◌}
use bridge_db.Platform.{Platform}
use bridge_db.Handoffs.Tables.{
  Handoff, Capability, Tables, active, status_beq_iff, handoff, capability_of,
}
use bridge_db.Handoffs.Store.{Store, Call}
use bridge_db.Handoffs.Complete.{Cleared, completed, Check}
use bridge_db.Handoffs.Transaction.{
  completable, consumable, completed_tables, clear_row, consume_row, refuse, refuse_race,
  report_refusal, report_completed, foreign_event,
}
use bridge_db.Handoffs.Invariant.{row_id, owner_id, Inv}

-- whether the answer is a completion
abbrev pub is_completed : Result Cleared → Bool
is_completed (ok (completed i left session)) = true
is_completed _ = false

pub never : {b : Bool} → b ≡ false → b ≡ true → ⊥
never p q = ground arith

pub completed_ok :
    (r : Result Cleared) → is_completed r ≡ true → (answer : Cleared) × (r ≡ ok answer)
completed_ok (ok answer) h = (answer, refl)
completed_ok (err e) h = absurd (ground arith)

claim_facts :
    (id : ℕ) (caller : Caller) (x : Handoff)
    → completable id caller x ≡ true
    → (x.status ≡ active) × (x.claimed_by ≡ some caller)
claim_facts id caller x h = (
  ground (arith, status_beq_iff x.status active),
  ground (arith, option_beq_iff x.claimed_by (some caller)),
)

capability_facts :
    (id : ℕ) (hash : String) (c : Capability)
    → consumable id hash c ≡ true
    → (c.token_sha256 ≡ hash) × (c.consumed_at ≡ none) × (c.recovered_at ≡ none)
capability_facts id hash c h =
    (ground (arith, eq_iff c.token_sha256 hash), ground arith, ground arith)

row_updated :
    (test : Handoff → Bool) (change : Handoff → Handoff) (id : ℕ) (hs : List Handoff) (x : Handoff)
    → ((y : Handoff) → (change y).id ≡ y.id)
    → handoff id hs ≡ some x
    → test x ≡ true
    → handoff id (update_where test change hs) ≡ some (change x)
row_updated test change id hs x same found passes =
    find-update_where row_id test change id hs same ∙ rw (found, passes) refl

capability_updated :
    (test : Capability → Bool) (change : Capability → Capability) (id : ℕ) (cs : List Capability)
    (x : Capability)
    → ((y : Capability) → (change y).handoff_id ≡ y.handoff_id)
    → capability_of id cs ≡ some x
    → test x ≡ true
    → capability_of id (update_where test change cs) ≡ some (change x)
capability_updated test change id cs x same found passes =
    find-update_where owner_id test change id cs same ∙ rw (found, passes) refl

module _ (pf : Platform) (call : Call) (caller : Caller) (name : String) where
  -- A completion of the tables `t` by the holder of a token that led to `t'`.
  pub record Finished (id : ℕ) (hash at : String) (t t' : Tables) : Type 0 where
    pub row : Handoff
    pub stood : handoff id t.handoffs ≡ some row
    pub was_active : row.status ≡ active
    pub was_held : row.claimed_by ≡ some caller
    pub stands : handoff id t'.handoffs ≡ some (clear_row call.db_now row)
    pub capability : Capability
    pub held : capability_of id t.capabilities ≡ some capability
    pub same_token : capability.token_sha256 ≡ hash
    pub unspent : capability.consumed_at ≡ none
    pub not_retired : capability.recovered_at ≡ none
    pub spent : capability_of id t'.capabilities ≡ some (consume_row at capability)

  flagged :
      (b : Bool) (check : Check) (id : ℕ) (session : Option String) (s : Store)
      → is_completed
          ((foreign_event pf call caller name b
              >> report_refusal pf call caller name check id session)
            s).0
        ≡ false
  flagged true check id session s = refl
  flagged false check id session s = refl

  pub refuse-refuses :
      (check : Check) (id : ℕ) (session : Option String) (s : Store)
      → is_completed (refuse pf call caller name check id session s).0 ≡ false
  unfolding refuse
  refuse-refuses check id session s = flagged check.foreign_claim check id session _

  pub race-refuses :
      (id : ℕ) (session reason : String) (s : Store)
      → is_completed (refuse_race pf call caller name id session reason s).0 ≡ true
      → ⊥
  unfolding refuse
  race-refuses id session reason s h = ground arith

  pub report-keeps :
      (b : Bool) (id : ℕ) (session : String) (left : List ℕ) (s : Store)
      → ((foreign_event pf call caller name b
            >> report_completed pf call caller name id session left)
          s).1.tables
        ≡ s.tables
  report-keeps true id session left s = refl
  report-keeps false id session left s = refl

  finished :
      (id : ℕ) (hash at : String) (seen x : Handoff) (c : Capability) (t : Tables)
      → handoff id t.handoffs ≡ some x
      → completable id caller x ≡ true
      → capability_of id t.capabilities ≡ some c
      → consumable id hash c ≡ true
      → Finished id hash at t (completed_tables id hash caller name call.db_now at seen t)
  finished id hash at seen x c t found open_row held live =
      let (is_active, is_held) = claim_facts id caller x open_row in
      let (has_token, unspent, not_retired) = capability_facts id hash c live in
      record {
        row = x;
        stood = found;
        was_active = is_active;
        was_held = is_held;
        stands =
            row_updated (completable id caller) (clear_row call.db_now) id t.handoffs x (λ y. refl)
              found open_row;
        capability = c;
        held = held;
        same_token = has_token;
        unspent = unspent;
        not_retired = not_retired;
        spent =
            capability_updated (consumable id hash) (consume_row at) id t.capabilities c (λ y. refl)
              held live;
      }

  pub finish :
      (id : ℕ) (hash at : String) (seen : Handoff) (t : Tables)
      → Inv t
      → count_where (completable id caller) t.handoffs ≡ 1
      → count_where (consumable id hash) t.capabilities ≡ 1
      → Finished id hash at t (completed_tables id hash caller name call.db_now at seen t)
  finish id hash at seen t inv one spent =
      let (x, found, open_row) =
        find_of_count_where row_id (completable id caller) id t.handoffs (λ y q. ground arith)
          (inv.unique id) (omega arith) in
      let (c, held, live) =
        find_of_count_where owner_id (consumable id hash) id t.capabilities (λ y q. ground arith)
          (inv.one_capability id) (omega arith) in
      finished id hash at seen x c t found open_row held live
