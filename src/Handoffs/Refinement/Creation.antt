-- ===== src/Handoffs/Refinement/Creation.antt =====
-- `create_handoff` as a run of the protocol.
use mathlib.Core.Path.{subst, sym}
use bridge_db.Prelude.{
  ℕ, String, ◌≡◌, ◌≢◌, refl, Bool, true, false, ◌&&◌, not, Option, none, some, arith, ◌!=◌,
}
use bridge_db.Models.{Caller, SourceTrust, operator, agent, ingested, caller_eq}
use bridge_db.Exec.{Exec, raise_if, ok, ◌>>=◌, ◌>>◌}
use bridge_db.Errors.{not_a_dispatcher}
use bridge_db.Platform.{Platform}
use bridge_db.Audit.{Trail}
use bridge_db.Auth.Clamping.{clamped, clamp_source_trust-strict}
use bridge_db.Resolver.{Resolution}
use bridge_db.Auth.{require_bound_caller, clamp_source_trust}
use bridge_db.Handoffs.Tables.{Tables}
use bridge_db.Handoffs.Store.{Store, Call, gate, get_tables}
use bridge_db.Handoffs.Create.{
  Payload, Created, validate_handoff_payload, insert_handoff, label, stage, report_created,
  write_handoff, clamp_and_write, create_handoff,
}
use bridge_db.Handoffs.Protocol.{Run, Step, here, append_run}
use bridge_db.Handoffs.Refinement.Composed.{Runs, gated, guarded, lifted, sequence, sequence_with}

module _ (pf : Platform) (call : Call) (caller : Caller) (p : Payload) where
  label-clamped : (requested : SourceTrust) → label (clamped (some requested)).0 ≢ operator
  label-clamped operator e = ground arith
  label-clamped agent e = ground arith
  label-clamped ingested e = ground arith

  clamped_label :
      (requested : SourceTrust) (t : Option SourceTrust × Bool) (trail : Trail)
      → (clamp_source_trust call.settings (some requested) caller "create_handoff" true trail).0
        ≡ ok t
      → label t.0 ≢ operator
  clamped_label requested t trail e =
      subst (λ (u : Option SourceTrust × Bool). label u.0 ≢ operator)
        (sym (
          clamp_source_trust-strict call.settings (some requested) caller "create_handoff" trail t
            e))
        (label-clamped requested)

  report_created-Runs :
      (resolution : Resolution) (trust : SourceTrust) (flag : Bool) (id : ℕ) (b : Bool)
      → Runs pf (report_created caller p resolution trust flag id b)
  report_created-Runs resolution trust flag id true s = here
  report_created-Runs resolution trust flag id false s = here

  stage-Runs :
      (s : Store) (resolution : Resolution) (trust : SourceTrust) (flag : Bool)
      (key : Option String) (o : Option (ℕ × Tables))
      → trust ≢ operator
      → insert_handoff p key trust call.db_now s.tables ≡ o
      → Run pf s.tables (stage caller p resolution trust flag o s).1.tables
  stage-Runs s resolution trust flag key none mortal e = here
  stage-Runs s resolution trust flag key (some (id, t)) mortal e =
      append_run pf (Run.after here (Step.create p key trust call.db_now id mortal e)) (
        report_created-Runs resolution trust flag id
          (resolution.registry_present && not resolution.matched) (record s { tables = t }))

  write_handoff-Runs :
      (trust : SourceTrust) (flag : Bool)
      → trust ≢ operator
      → Runs pf (write_handoff call caller p trust flag)
  write_handoff-Runs trust flag mortal s =
      let resolution = call.resolve p.project_name in
      lifted pf (validate_handoff_payload p tt).0
        (λ _. get_tables >>= λ t.
          stage caller p resolution trust flag
            (insert_handoff p resolution.canonical_key trust call.db_now t))
        s (λ _. stage-Runs s resolution trust flag resolution.canonical_key _ mortal refl)

  clamp_and_write-Runs :
      (requested : SourceTrust) → Runs pf (clamp_and_write call caller p requested)
  clamp_and_write-Runs requested =
      let clamp = clamp_source_trust call.settings (some requested) caller "create_handoff" true in
      sequence_with pf (gate clamp) (λ t. write_handoff call caller p (label t.0) t.1)
        (gated pf clamp)
        (λ t s e. write_handoff-Runs (label t.0) t.1 (clamped_label requested t s.trail e))

  -- `create_handoff` commits a run of the protocol: an insertion under both quotas of a label
  -- other than "operator", or nothing.
  pub create_handoff-Runs :
      (requested : SourceTrust) (s : Store)
      → Run pf s.tables (create_handoff call caller p requested s).1.tables
  unfolding create_handoff
  create_handoff-Runs requested =
      let body = clamp_and_write call caller p requested in
      let asked : Exec Store Created =
        raise_if (caller != Caller.claude_ai) (not_a_dispatcher caller) >> body in
      sequence pf (gate (require_bound_caller call.settings call.conn caller "create_handoff"))
        (λ _. asked)
        (gated pf (require_bound_caller call.settings call.conn caller "create_handoff"))
        (λ _.
          guarded pf (caller != Caller.claude_ai) (not_a_dispatcher caller) body
            (λ _. clamp_and_write-Runs requested))
