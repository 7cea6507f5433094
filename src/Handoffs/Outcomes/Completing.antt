-- ===== src/Handoffs/Outcomes/Completing.antt =====
-- What a completion that `clear_handoff` answers with stands for.
use mathlib.Core.Logic.{inl, inr}
use mathlib.Core.Path.{subst, sym}
use bridge_db.Prelude.{
  ℕ, String, ◌≡◌, refl, true, not, Option, none, some, count_where, arith, Bool-cases, ◌==◌, ◌!=◌,
  nat_eq,
}
use bridge_db.Models.{Caller, caller_eq}
use bridge_db.Exec.{Result}
use bridge_db.Platform.{Platform}
use bridge_db.Handoffs.Tables.{Handoff, Capability, Tables}
use bridge_db.Handoffs.Store.{Store, Call}
use bridge_db.Handoffs.Claim.{utc_text}
use bridge_db.Handoffs.Complete.{
  Clock, Cleared, Check, check_capability, join_by_token, completion_capability_hash, open_ids,
}
use bridge_db.Handoffs.Transaction.{
  locked_row, still_live, completable, consumable, completed_tables, complete, commit_completion,
  settle, with_join, with_hash, with_arguments, clear_handoff, canonical, is_empty,
}
use bridge_db.Handoffs.Invariant.{Inv}
use bridge_db.Handoffs.Outcomes.Authority.{authorised-ok}
use bridge_db.Handoffs.Outcomes.Finishing.{
  is_completed, never, completed_ok, Finished, refuse-refuses, race-refuses, report-keeps, finish,
}

module _ (pf : Platform) (call : Call) (caller : Caller) (name : String) where
  -- The completion that the transaction of a token with a hash commits.
  abbrev pub Completes : ℕ → String → Clock → Tables → Tables → Type 0
  Completes id hash clock t t' =
      Finished pf call caller name id hash (utc_text pf clock.stamped) t t'
      × (still_live pf caller clock.locked (locked_row id hash t) ≡ true)

  commit-Completes :
      (id : ℕ) (hash session : String) (clock : Clock) (seen : Handoff) (s : Store)
      → Inv s.tables
      → count_where (completable id caller) s.tables.handoffs ≡ 1
      → is_completed (commit_completion pf call caller name id hash session clock seen s.tables s).0
        ≡ true
      → Finished pf call caller name id hash
          (utc_text pf clock.stamped)
          s.tables
          (commit_completion pf call caller name id hash session clock seen s.tables s).1.tables
  commit-Completes id hash session clock seen s inv one h =
      let at = utc_text pf clock.stamped in
      let t = completed_tables id hash caller name call.db_now at seen s.tables in
      let left = open_ids name (canonical pf call caller name) (λ h. h.id != id) t.handoffs in
      elim (Bool-cases (count_where (consumable id hash) s.tables.capabilities == 1)) [
        | inr few ↦ absurd (cc (rw few at h))
        | inl only ↦ rw only (
            subst (Finished pf call caller name id hash at s.tables)
              (sym (
                report-keeps pf call caller name (not (is_empty pf call caller name left)) id
                  session left (record s { tables = t })))
              (finish pf call caller name id hash at seen s.tables inv one (ground arith)))
      ]

  complete-Completes :
      (id : ℕ) (hash session : String) (clock : Clock) (seen : Handoff) (s : Store)
      → Inv s.tables
      → is_completed (complete pf call caller name id hash session clock seen s).0 ≡ true
      → Completes id hash clock s.tables
          (complete pf call caller name id hash session clock seen s).1.tables
  unfolding complete
  complete-Completes id hash session clock seen s inv h =
      elim (Bool-cases (still_live pf caller clock.locked (locked_row id hash s.tables))) [
        | inr gone ↦ absurd (
            race-refuses pf call caller name id session
              "Handoff capability state changed before completion" s (rw gone at h))
        | inl live ↦
            elim (Bool-cases (count_where (completable id caller) s.tables.handoffs != 1)) [
              | inl lost ↦ absurd (
                  race-refuses pf call caller name id session
                    "Handoff claim changed before completion" s (rw (live, lost) at h))
              | inr one ↦ (
                rw (live, one)
                    (commit-Completes id hash session clock seen s inv (ground arith)
                      (rw (live, one) at h)),
                live,
              )
            ]
      ]

  module _ (between : Tables → Tables) where
    settle-Completes :
        (id : ℕ) (hash : String) (clock : Clock) (c : Capability) (h : Handoff) (o : Option Check)
        (s : Store)
        → Inv (between s.tables)
        → is_completed (settle pf call caller name between id hash clock c h o s).0 ≡ true
        → Completes id hash clock
            (between s.tables)
            (settle pf call caller name between id hash clock c h o s).1.tables
    settle-Completes id hash clock c h (some check) s inv e =
        absurd (never (refuse-refuses pf call caller name check id (some c.session_id) s) e)
    settle-Completes id hash clock c h none s inv e =
        complete-Completes id hash c.session_id clock h (record s { tables = between s.tables }) inv
          e

    with_join-Completes :
        (id : ℕ) (hash : String) (clock : Clock) (o : Option (Capability × Handoff)) (s : Store)
        → Inv (between s.tables)
        → is_completed (with_join pf call caller name between id hash clock o s).0 ≡ true
        → Completes id hash clock
            (between s.tables)
            (with_join pf call caller name between id hash clock o s).1.tables
    with_join-Completes id hash clock none s inv e =
        absurd (never (refuse-refuses pf call caller name _ id none s) e)
    with_join-Completes id hash clock (some (c, h)) s inv e =
        settle-Completes id hash clock c h
          (check_capability pf id name (canonical pf call caller name) caller clock.checked c h) s
          inv e

    with_hash-Completes :
        (id : ℕ) (clock : Clock) (o : Option String) (s : Store)
        → Inv (between s.tables)
        → is_completed (with_hash pf call caller name between id clock o s).0 ≡ true
        → (hash : String) × (o ≡ some hash)
          × Completes id hash clock
              (between s.tables)
              (with_hash pf call caller name between id clock o s).1.tables
    with_hash-Completes id clock none s inv e =
        absurd (never (refuse-refuses pf call caller name _ id none s) e)
    with_hash-Completes id clock (some hash) s inv e = (
      hash,
      refl,
      with_join-Completes id hash clock (join_by_token hash s.tables.capabilities s.tables.handoffs)
          s inv e,
    )

    start-Completes :
        (clock : Clock) (id : ℕ) (o : Option String) (s0 s : Store) (r : Result Cleared × Store)
        → s0.tables ≡ s.tables
        → r ≡ with_hash pf call caller name between id clock o s0
        → Inv (between s.tables)
        → is_completed r.0 ≡ true
        → (hash : String) × (o ≡ some hash) × Completes id hash clock (between s.tables) r.1.tables
    start-Completes clock id o s0 s r same ran inv e =
        let (hash, known, (done, live)) =
          with_hash-Completes id clock o s0 (subst (λ t. Inv (between t)) (sym same) inv)
            (subst (λ (q : Result Cleared × Store). is_completed q.0 ≡ true) ran e) in
        (
          hash,
          known,
          subst (λ t. Completes id hash clock (between t) r.1.tables) same
              (subst
                (λ (q : Result Cleared × Store).
                  Completes id hash clock (between s0.tables) q.1.tables)
                (sym ran) (done, live)),
        )

    -- Where the invariant holds of the tables that the completion is committed on and
    -- `clear_handoff` answers with one, the bearer value was well formed; in the
    -- tables that the completion was committed on, which other connections may have changed since
    -- the first check, the handoff was an active claim of the caller and the capability under its
    -- id had the value's hash, was neither consumed nor retired, and had not expired; afterwards
    -- the handoff is cleared and the capability consumed.
    pub clear_handoff-Completes :
        (clock : Clock) (id : ℕ) (value : String) (s : Store)
        → Inv (between s.tables)
        → is_completed (clear_handoff pf call caller name between clock (some id) (some value) s).0
          ≡ true
        → (hash : String) × (completion_capability_hash pf value ≡ some hash)
          × Completes id hash clock
              (between s.tables)
              (clear_handoff pf call caller name between clock (some id) (some value) s).1.tables
    unfolding clear_handoff
    clear_handoff-Completes clock id value s inv e =
        let body = with_arguments pf call caller name between clock (some id) (some value) in
        let (answer, is_answer) = completed_ok _ e in
        let a = authorised-ok call caller "clear_handoff" body s answer is_answer in
        start-Completes clock id (completion_capability_hash pf value) a.start s _ a.same_tables
          a.runs inv e
