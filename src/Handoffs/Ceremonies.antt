-- ===== src/Handoffs/Ceremonies.antt =====
-- The operator's ceremonies on one handoff: `run_promote_handoff` and
-- `run_cancel_handoff` of src/bridge_db/__main__.py. The answer at the terminal is an
-- argument, none at the end of its input; `between` is what others commit while the operator
-- reviews. What the terminal shows is not modelled. Rows are compared by their digests.
use bridge_db.Prelude.{
  ℕ, String, ◌<>◌, Bool, true, false, ◌&&◌, ◌||◌, not, Option, none, some, List, [], ◌∷◌, ◌++◌, str,
  codes, strip, lower, count_where, update_where, is_none, is_some, ◌==◌, ◌!=◌, nat_eq, string_eq,
  option_eq, list_eq, if◌then◌else◌,
}
use bridge_db.Models.{SourceTrust, operator, caller_eq, trust_eq, trust_name}
use bridge_db.Json.{Fields, field, end, int, string, object}
use bridge_db.Platform.{Platform}
use bridge_db.Exec.{Exec, pure, ◌>>=◌, ◌>>◌}
use bridge_db.Handoffs.Tables.{
  Status, pending, active, cleared, status_eq, status_name, Handoff, Tables, handoff,
}
use bridge_db.Handoffs.Store.{Store, audit, get_tables, put_tables}
use bridge_db.Handoffs.Claim.{text_or_null, name_or_null}

-- What a ceremony reads from outside.
pub record Ceremony : Type 0 where
  pub tty : Bool  -- sys.stdin.isatty()
  pub answer : Option String
  pub between : Tables → Tables
  pub db_now : String
  pub reviewed_at : ℕ  -- clock.now() before the review
  pub locked_at : ℕ  -- clock.now() under the lock
  pub stamped_at : ℕ  -- clock.now() for recovered_at

-- _HANDOFF_PROMOTION_FIELDS of a row, in front of further fields
unfoldable pub row_fields : Handoff → Fields → Fields
row_fields h rest = field "id" (int h.id) (
    field "project_name" (string h.project_name) (
      field "project_path" (text_or_null h.project_path) (
        field "roadmap_file" (text_or_null h.roadmap_file) (
          field "phase" (text_or_null h.phase) (
            field "dispatched_from" (string h.dispatched_from) (
              field "dispatched_at" (string h.dispatched_at) (
                field "picked_up_at" (text_or_null h.picked_up_at) (
                  field "cleared_at" (text_or_null h.cleared_at) (
                    field "canonical_key" (text_or_null h.canonical_key) (
                      field "source_trust" (string (trust_name h.source_trust)) (
                        field "status" (string (status_name h.status))
                          (field "claimed_by" (name_or_null h.claimed_by) rest))))))))))))

-- `_handoff_row_json`, and the digest of `_handoff_promotion_digest` and `_handoff_row_digest`
unfoldable pub row_json : Platform → Handoff → String
unfolding row_fields
row_json pf h = pf.dumps (object (row_fields h end))

unfoldable pub row_digest : Platform → Handoff → String
unfolding row_json
row_digest pf h = pf.sha256 (row_json pf h)

abbrev pub answered : List String → Option String → Bool
answered words none = false
answered [] (some a) = false
answered (w ∷ ws) (some a) = strip (codes a) == codes w || answered ws (some a)

-- confirmed.strip().lower() in {"y", "yes"}
abbrev pub agreed : Option String → Bool
agreed none = false
agreed (some a) = let reply = lower (strip (codes a)) in reply == codes "y" || reply == codes "yes"

-- WHERE id = ? AND status = 'pending' AND source_trust = ?
abbrev pub promotable : ℕ → SourceTrust → Handoff → Bool
promotable id trust h = h.id == id && h.status == pending && h.source_trust == trust

abbrev pub promote_row : Handoff → Handoff
promote_row h = record h { source_trust = operator }

module _ (pf : Platform) (env : Ceremony) (id : ℕ) where
  abbrev pub audit_promotion : Handoff → Exec Store Bool
  audit_promotion row = do
    audit "auth.promote_handoff" (some "operator-cli") (some row.project_name) true (
        some (
          "handoff_id="
          <> str id
          <> " "
          <> trust_name row.source_trust
          <> "->operator sha256="
          <> row_digest pf row))
    pure true

  abbrev pub write_promotion : Handoff → Handoff → Exec Store Bool
  write_promotion row current = do
    t ← get_tables
    if count_where (promotable id current.source_trust) t.handoffs != 1 then pure false else do
      put_tables (record t {
        handoffs = update_where (promotable id current.source_trust) promote_row t.handoffs;
      })
      audit_promotion row

  -- Under the lock, with the row that was reviewed.
  abbrev pub promote_locked : Handoff → Option Handoff → Exec Store Bool
  promote_locked row none = pure false
  promote_locked row (some current) =
      if current.status != pending || row_digest pf current != row_digest pf row
      then pure false
      else write_promotion row current

  -- BEGIN IMMEDIATE, after what others committed
  abbrev pub lock_and_promote : Handoff → Exec Store Bool
  lock_and_promote row = do
    t ← get_tables
    put_tables (env.between t)
    promote_locked row (handoff id (env.between t).handoffs)

  abbrev pub promote_reviewed : Option Handoff → Exec Store Bool
  promote_reviewed none = pure false
  promote_reviewed (some row) =
      if row.status != pending
      then pure false
      else if row.source_trust == operator
      then pure true
      else if not (agreed env.answer)
      then pure false
      else lock_and_promote row

  unfoldable pub run_promote_handoff : Exec Store Bool
  unfolding row_digest
  run_promote_handoff =
      if id == 0 || not env.tty
      then pure false
      else do t ← get_tables; promote_reviewed (handoff id t.handoffs)

-- WHERE id = ? AND status = ? AND claimed_by IS NULL
abbrev pub cancellable : ℕ → Status → Handoff → Bool
cancellable id status h = h.id == id && h.status == status && is_none h.claimed_by

abbrev pub end_row : String → Handoff → Handoff
end_row now h = record h { status = cleared; cleared_at = some now }

module _ (pf : Platform) (env : Ceremony) (id : ℕ) (reason : String) where
  abbrev pub cancelled_tables : Handoff → Tables → Tables
  cancelled_tables row t = record t {
    handoffs = update_where (cancellable id row.status) (end_row env.db_now) t.handoffs;
    cancellations =
        t.cancellations
        ++ record {
          handoff_id = id;
          reason = reason;
          previous_status = row.status;
          reviewed_row_sha256 = row_digest pf row;
        }
          ∷ [];
  }

  abbrev pub write_cancellation : Handoff → Exec Store Bool
  write_cancellation row = do
    t ← get_tables
    if count_where (cancellable id row.status) t.handoffs != 1 then pure false else do
      put_tables (cancelled_tables row t)
      audit "handoff.operator_cancel" (some "operator-cli") (some row.project_name) true (
          some (
            "handoff_id="
            <> str id
            <> " previous_status="
            <> status_name row.status
            <> " sha256="
            <> row_digest pf row))
      pure true

  abbrev pub cancel_locked : Handoff → Option Handoff → Exec Store Bool
  cancel_locked row none = pure false
  cancel_locked row (some current) =
      if row_digest pf current != row_digest pf row then pure false else write_cancellation row

  abbrev pub lock_and_cancel : Handoff → Exec Store Bool
  lock_and_cancel row = do
    t ← get_tables
    put_tables (env.between t)
    cancel_locked row (handoff id (env.between t).handoffs)

  abbrev pub cancel_reviewed : Option Handoff → Exec Store Bool
  cancel_reviewed none = pure false
  cancel_reviewed (some row) =
      if row.status == active && is_some row.claimed_by
      then pure false
      else if row.status == cleared
      then pure false
      else if not (answered ("cancel" ∷ []) env.answer)
      then pure false
      else lock_and_cancel row

  -- `reason` is the text that was stripped.
  unfoldable pub run_cancel_handoff : Exec Store Bool
  unfolding row_digest
  run_cancel_handoff =
      if id == 0 || reason == "" || not env.tty
      then pure false
      else do t ← get_tables; cancel_reviewed (handoff id t.handoffs)
