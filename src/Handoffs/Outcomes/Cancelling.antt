-- ===== src/Handoffs/Outcomes/Cancelling.antt =====
-- How `run_cancel_handoff` ends.
use bridge_db.Prelude.{
  ℕ, String, ◌≡◌, ◌≢◌, refl, Bool, true, false, ◌&&◌, ◌||◌, not, Option, none, some, [], ◌∷◌, ◌++◌,
  count_where, update_where, is_none, is_some, arith, if◌then◌else◌, ◌==◌, ◌!=◌, nat_eq, string_eq,
}
use bridge_db.Models.{Caller}
use bridge_db.Exec.{Exec, Result, ok, pure, ◌>>=◌}
use bridge_db.Platform.{Platform}
use bridge_db.Handoffs.Tables.{
  Status, Handoff, Tables, active, cleared, handoff, status_eq, status_beq_iff,
}
use bridge_db.Handoffs.Store.{Store, get_tables}
use bridge_db.Handoffs.Ceremonies.{
  Ceremony, answered, row_digest, cancellable, cancel_locked, cancel_reviewed, run_cancel_handoff,
  write_cancellation, lock_and_cancel,
}
use bridge_db.Handoffs.Outcomes.Reviews.{
  columns, digest, row_digest-columns, same-columns, Typed, answered-Typed, branch,
}

-- the row that may be cancelled: unclaimed, with the status that was reviewed
abbrev pub cancels : ℕ → Status → Handoff → Bool
cancels id status h = h.id == id && h.status == status && is_none h.claimed_by

abbrev pub ended : String → Handoff → Handoff
ended now h = record h { status = cleared; cleared_at = some now }

no_claimant : (o : Option Caller) → is_some o ≡ false → o ≡ none
no_claimant none e = refl
no_claimant (some c) e = absurd (cc e)

module _ (pf : Platform) (env : Ceremony) (id : ℕ) (reason : String) where
  -- The answer, and the tables after it, from the tables `t`.
  pub data Cancelled (t : Tables) : Result Bool → Tables → Type 0 where
    not_begun : Cancelled t (ok false) t
    -- refused under the lock: what others committed stays
    refused_locked : Cancelled t (ok false) (env.between t)
    -- the row that was reviewed, unchanged under the lock, with its receipt
    carried_out :
        (row current : Handoff)
        → env.tty ≡ true
        → Typed "cancel" env.answer
        → handoff id t.handoffs ≡ some row
        → row.status ≢ cleared
        → (row.status ≡ active → row.claimed_by ≡ none)
        → handoff id (env.between t).handoffs ≡ some current
        → digest pf (columns current) ≡ digest pf (columns row)
        → count_where (cancels id row.status) (env.between t).handoffs ≡ 1
        → (receipt_digest : String) → receipt_digest ≡ digest pf (columns row)
        → Cancelled t (ok true) (record (env.between t) {
          handoffs =
              update_where (cancels id row.status) (ended env.db_now) (env.between t).handoffs;
          cancellations =
              (env.between t).cancellations
              ++ record {
                handoff_id = id;
                reason = reason;
                previous_status = row.status;
                reviewed_row_sha256 = receipt_digest;
              }
                ∷ [];
        })

  abbrev refused : Exec Store Bool
  refused = pure false

  abbrev locked : Store → Store
  locked s = record s { tables = env.between s.tables }

  abbrev Ends : Store → Result Bool × Store → Type 0
  Ends s r = Cancelled s.tables r.0 r.1.tables

  locked-Cancelled :
      (s : Store) (row : Handoff) (o : Option Handoff)
      → env.tty ≡ true
      → Typed "cancel" env.answer
      → handoff id s.tables.handoffs ≡ some row
      → row.status ≢ cleared
      → (row.status ≡ active → row.claimed_by ≡ none)
      → handoff id (env.between s.tables).handoffs ≡ o
      → Ends s (cancel_locked pf env id reason row o (locked s))
  locked-Cancelled s row none tty typed seen unended unclaimed found = refused_locked
  locked-Cancelled s row (some current) tty typed seen unended unclaimed found =
      branch (Cancelled s.tables) (row_digest pf current != row_digest pf row) refused
        (write_cancellation pf env id reason row) (locked s) (λ _. refused_locked)
        (λ same.
          branch (Cancelled s.tables)
            (count_where (cancellable id row.status) (env.between s.tables).handoffs != 1) refused _
            (locked s) (λ _. refused_locked)
            (λ one.
              carried_out row current tty typed seen unended unclaimed found
                (same-columns pf current row (ground arith)) (ground arith) (row_digest pf row)
                (row_digest-columns pf row)))

  reviewed-Cancelled :
      (s : Store) (o : Option Handoff)
      → env.tty ≡ true
      → handoff id s.tables.handoffs ≡ o
      → Ends s (cancel_reviewed pf env id reason o s)
  reviewed-Cancelled s none tty seen = not_begun
  reviewed-Cancelled s (some row) tty seen =
      let after_answer : Exec Store Bool =
        if not (answered ("cancel" ∷ []) env.answer)
        then refused
        else lock_and_cancel pf env id reason row in
      branch (Cancelled s.tables) (row.status == active && is_some row.claimed_by) refused
        (if row.status == cleared then refused else after_answer) s (λ _. not_begun)
        (λ free.
          branch (Cancelled s.tables) (row.status == cleared) refused after_answer s
            (λ _. not_begun)
            (λ unended.
              branch (Cancelled s.tables) (not (answered ("cancel" ∷ []) env.answer)) refused
                (lock_and_cancel pf env id reason row) s (λ _. not_begun)
                (λ typed.
                  locked-Cancelled s row _ tty (answered-Typed "cancel" env.answer (ground arith))
                    seen (λ e. ground (arith, status_beq_iff row.status cleared))
                    (λ e.
                      no_claimant row.claimed_by (ground (arith, status_beq_iff row.status active)))
                    refl)))

  -- Every branch of the cancellation of a handoff. It ends only a row that the operator at a
  -- terminal reviewed and typed "cancel" for, that was not cleared and had no claimant if active,
  -- and only while exactly one row, unclaimed, of the same status and of the same digest of all its
  -- columns is stored under the lock; it writes that row and one receipt with the digest. On every
  -- other branch it writes nothing.
  pub run_cancel_handoff-Cancelled :
      (s : Store)
      → Cancelled s.tables
          (run_cancel_handoff pf env id reason s).0
          (run_cancel_handoff pf env id reason s).1.tables
  unfolding run_cancel_handoff
  run_cancel_handoff-Cancelled s =
      branch (Cancelled s.tables) (id == 0 || reason == "" || not env.tty) refused
        (get_tables >>= λ t. cancel_reviewed pf env id reason (handoff id t.handoffs)) s
        (λ _. not_begun) (λ e. reviewed-Cancelled s _ (ground arith) refl)
