-- ===== src/Handoffs/Quarantine.antt =====
-- What the quarantine of handoff trust writes: the UPDATEs of
-- `run_quarantine_cleared_operator_handoffs` and `run_restore_handoff_trust` of
-- src/bridge_db/__main__.py. Their reviews at the terminal are not modelled.
use bridge_db.Prelude.{
  ℕ, String, Bool, ◌&&◌, some, [], ◌∷◌, ◌++◌, update_where, is_none, ◌==◌, nat_eq,
}
use bridge_db.Models.{operator, ingested, trust_eq}
use bridge_db.Handoffs.Tables.{Handoff, Quarantined, Tables, cleared, status_eq}
use bridge_db.Handoffs.Ceremonies.{promote_row}

-- WHERE id = ? AND status = 'cleared' AND source_trust = 'operator'
abbrev pub quarantinable : ℕ → Handoff → Bool
quarantinable id h = h.id == id && h.status == cleared && h.source_trust == operator

abbrev pub quarantine_row : Handoff → Handoff
quarantine_row h = record h { source_trust = ingested }

-- One turn of the loop: the row's image is kept and the row is relabelled.
abbrev pub quarantined_tables : ℕ → Quarantined → Tables → Tables
quarantined_tables id image t = record t {
  handoffs = update_where (quarantinable id) quarantine_row t.handoffs;
  quarantine = t.quarantine ++ image ∷ [];
}

-- WHERE id = ? AND source_trust = 'ingested', for a row that agrees with its image: an image is
-- taken of a cleared row
abbrev pub restorable : ℕ → Handoff → Bool
restorable id h = h.id == id && h.status == cleared && h.source_trust == ingested

-- WHERE handoff_id = ? AND restored_at IS NULL
abbrev pub is_quarantined : ℕ → Quarantined → Bool
is_quarantined id q = q.handoff_id == id && is_none q.restored_at

abbrev pub restore_image : String → Quarantined → Quarantined
restore_image now q = record q { restored_at = some now }

abbrev pub restored_tables : ℕ → String → Tables → Tables
restored_tables id now t = record t {
  handoffs = update_where (restorable id) promote_row t.handoffs;
  quarantine = update_where (is_quarantined id) (restore_image now) t.quarantine;
}
