-- ===== src/Handoffs/Payload.antt =====
-- Which payloads `_validate_handoff_payload` accepts.
use bridge_db.Prelude.{◌+◌, ◌≤◌, ◌≡◌, ◌↔◌, some, arith}
use bridge_db.Exec.{ok}
use bridge_db.Capacity.{utf8_size, require_utf8_bytes, require_combined_bytes}
use bridge_db.Handoffs.Create.{
  Payload, validate_handoff_payload, project_name_max, project_path_max, roadmap_file_max,
  phase_max, combined_max,
}

-- the bounds of the schema, in bytes of UTF-8
pub record Fits (p : Payload) : Type 0 where
  pub name : utf8_size (some p.project_name) ≤ project_name_max
  pub path : utf8_size p.project_path ≤ project_path_max
  pub roadmap : utf8_size p.roadmap_file ≤ roadmap_file_max
  pub step : utf8_size p.phase ≤ phase_max
  pub all_together :
      utf8_size (some p.project_name)
        + (utf8_size p.project_path + (utf8_size p.roadmap_file + utf8_size p.phase))
      ≤ combined_max

accepted : (p : Payload) → Fits p → (validate_handoff_payload p tt).0 ≡ ok tt
unfolding validate_handoff_payload require_utf8_bytes require_combined_bytes
accepted p fits = ground arith

fitting : (p : Payload) → (validate_handoff_payload p tt).0 ≡ ok tt → Fits p
unfolding validate_handoff_payload require_utf8_bytes require_combined_bytes
fitting p h = record {
  name = ground arith;
  path = ground arith;
  roadmap = ground arith;
  step = ground arith;
  all_together = ground arith;
}

-- A payload is accepted exactly when each field and all of them together fit their bounds.
pub validate_handoff_payload-ok_iff :
    (p : Payload) → ((validate_handoff_payload p tt).0 ≡ ok tt) ↔ Fits p
validate_handoff_payload-ok_iff p = (fitting p, accepted p)
