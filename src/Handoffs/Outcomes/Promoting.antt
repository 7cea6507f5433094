-- ===== src/Handoffs/Outcomes/Promoting.antt =====
-- How `run_promote_handoff` ends.
use bridge_db.Prelude.{
  ℕ, ◌≡◌, ◌≢◌, refl, Bool, true, false, ◌&&◌, ◌||◌, not, Option, none, some, count_where,
  update_where, arith, if◌then◌else◌, ◌==◌, ◌!=◌, nat_eq, string_eq,
}
use bridge_db.Models.{SourceTrust, operator, trust_eq, trust_beq_iff}
use bridge_db.Exec.{Exec, Result, ok, pure, ◌>>=◌}
use bridge_db.Platform.{Platform}
use bridge_db.Handoffs.Tables.{Handoff, Tables, pending, handoff, status_eq, status_beq_iff}
use bridge_db.Handoffs.Store.{Store, get_tables}
use bridge_db.Handoffs.Ceremonies.{
  Ceremony, agreed, row_digest, promotable, promote_locked, promote_reviewed, run_promote_handoff,
  write_promotion, lock_and_promote,
}
use bridge_db.Handoffs.Outcomes.Reviews.{
  columns, digest, same-columns, SaidYes, agreed-SaidYes, branch,
}

-- the row that may be promoted: pending, with the label that was reviewed
abbrev pub promotes : ℕ → SourceTrust → Handoff → Bool
promotes id trust h = h.id == id && h.status == pending && h.source_trust == trust

module _ (pf : Platform) (env : Ceremony) (id : ℕ) where
  -- The answer, and the tables after it, from the tables `t`.
  pub data Promotion (t : Tables) : Result Bool → Tables → Type 0 where
    not_begun : Promotion t (ok false) t
    trusted_already :
        (row : Handoff)
        → handoff id t.handoffs ≡ some row
        → row.status ≡ pending
        → row.source_trust ≡ operator
        → Promotion t (ok true) t
    -- refused under the lock: what others committed stays
    refused_locked : Promotion t (ok false) (env.between t)
    -- the row that was reviewed, unchanged under the lock
    carried_out :
        (row current : Handoff)
        → env.tty ≡ true
        → SaidYes env.answer
        → handoff id t.handoffs ≡ some row
        → row.status ≡ pending
        → row.source_trust ≢ operator
        → handoff id (env.between t).handoffs ≡ some current
        → current.status ≡ pending
        → digest pf (columns current) ≡ digest pf (columns row)
        → count_where (promotes id current.source_trust) (env.between t).handoffs ≡ 1
        → Promotion t (ok true) (record (env.between t) {
          handoffs =
              update_where
                (promotes id current.source_trust)
                (λ h. record h { source_trust = operator })
                (env.between t).handoffs;
        })

  abbrev refused : Exec Store Bool
  refused = pure false

  abbrev locked : Store → Store
  locked s = record s { tables = env.between s.tables }

  abbrev Ends : Store → Result Bool × Store → Type 0
  Ends s r = Promotion s.tables r.0 r.1.tables

  locked-Promotion :
      (s : Store) (row : Handoff) (o : Option Handoff)
      → env.tty ≡ true
      → SaidYes env.answer
      → handoff id s.tables.handoffs ≡ some row
      → row.status ≡ pending
      → row.source_trust ≢ operator
      → handoff id (env.between s.tables).handoffs ≡ o
      → Ends s (promote_locked pf env id row o (locked s))
  locked-Promotion s row none tty consent seen waits other found = refused_locked
  locked-Promotion s row (some current) tty consent seen waits other found =
      branch (Promotion s.tables)
        (current.status != pending || row_digest pf current != row_digest pf row) refused
        (write_promotion pf env id row current) (locked s) (λ _. refused_locked)
        (λ same.
          branch (Promotion s.tables)
            (count_where (promotable id current.source_trust) (env.between s.tables).handoffs != 1)
            refused _ (locked s) (λ _. refused_locked)
            (λ one.
              carried_out row current tty consent seen waits other found
                (ground (arith, status_beq_iff current.status pending))
                (same-columns pf current row (ground arith)) (ground arith)))

  reviewed-Promotion :
      (s : Store) (o : Option Handoff)
      → env.tty ≡ true
      → handoff id s.tables.handoffs ≡ o
      → Ends s (promote_reviewed pf env id o s)
  reviewed-Promotion s none tty seen = not_begun
  reviewed-Promotion s (some row) tty seen =
      let after_answer : Exec Store Bool =
        if not (agreed env.answer) then refused else lock_and_promote pf env id row in
      branch (Promotion s.tables) (row.status != pending) refused
        (if row.source_trust == operator then pure true else after_answer) s (λ _. not_begun)
        (λ open_row.
          let waits = (status_beq_iff row.status pending).0 (ground arith) in
          branch (Promotion s.tables) (row.source_trust == operator) (pure true) after_answer s
            (λ e. trusted_already row seen waits ((trust_beq_iff row.source_trust operator).0 e))
            (λ e.
              branch (Promotion s.tables) (not (agreed env.answer)) refused
                (lock_and_promote pf env id row) s (λ _. not_begun)
                (λ consent.
                  locked-Promotion s row _ tty (agreed-SaidYes env.answer (ground arith)) seen waits
                    (λ same. ground (arith, trust_beq_iff row.source_trust operator)) refl)))

  -- Every branch of the promotion of a handoff. It gives the operator's label only to a pending row
  -- that the operator at a terminal reviewed and answered yes to, and only while exactly one row,
  -- pending and of the same digest of all its columns, is stored under the lock; it changes nothing
  -- else. On every other branch it writes nothing, and it answers yes without a promotion only for
  -- a pending row that is trusted already.
  pub run_promote_handoff-Promotion :
      (s : Store)
      → Promotion s.tables
          (run_promote_handoff pf env id s).0
          (run_promote_handoff pf env id s).1.tables
  unfolding run_promote_handoff
  run_promote_handoff-Promotion s =
      branch (Promotion s.tables) (id == 0 || not env.tty) refused
        (get_tables >>= λ t. promote_reviewed pf env id (handoff id t.handoffs)) s (λ _. not_begun)
        (λ e. reviewed-Promotion s _ (ground arith) refl)
