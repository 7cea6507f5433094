-- ===== src/Witnesses/Ledgers.antt =====
-- The write-conflict ledger on concrete attempts.
use bridge_db.Prelude.{none, some, [], arith}
use bridge_db.Json.{end}
use bridge_db.Conflicts.{Attempt, Ledger, record_write_conflict}
use bridge_db.Conflicts.Receipts.{Recorded, record_write_conflict-Recorded}
use bridge_db.Conflicts.Quota.{WithinQuota, record_write_conflict-WithinQuota}
use bridge_db.Witnesses.Data.{platform}

abbrev attempt : Attempt
attempt = record {
  surface = "handoff";
  target_key = "1";
  operation = "pick_up_handoff";
  attempted_by = some "cc";
  principal = some "cc";
  stale_version = none;
  current_version = none;
  stale_updated_at = none;
  current_updated_at = none;
  attempted_source_trust = none;
  current_source_trust = none;
  attempted_content_sha256 = none;
  current_content_sha256 = none;
  reason = "raced_claim";
}

abbrev ledger : Ledger
ledger =
    (record_write_conflict platform attempt end "2026-01-01T00:00:00Z"
      (record { rows = []; next_id = 1 })).1

record_write_conflict-Recorded_example :
    Recorded ledger
      (record_write_conflict platform attempt end "2026-01-02T00:00:00Z" ledger).0
      (record_write_conflict platform attempt end "2026-01-02T00:00:00Z" ledger).1
record_write_conflict-Recorded_example =
    record_write_conflict-Recorded platform attempt end "2026-01-02T00:00:00Z" ledger

record_write_conflict-WithinQuota_example : WithinQuota ledger.rows
record_write_conflict-WithinQuota_example =
    record_write_conflict-WithinQuota platform attempt end "2026-01-01T00:00:00Z"
      (record { rows = []; next_id = 1 }) (record { hashed = omega arith; bounded = omega arith })
