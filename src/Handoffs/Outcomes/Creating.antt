-- ===== src/Handoffs/Outcomes/Creating.antt =====
-- How `create_handoff` ends.
use bridge_db.Prelude.{
  suc, ◌<◌, ◌≡◌, refl, sym, ◌∙◌, ap, inl, inr, Bool, true, false, ◌&&◌, ◌||◌, not, Option, none,
  some, [], ◌∷◌, ◌++◌, count_where, length, str, arith, Bool-cases, ◌==◌, ◌!=◌, if◌then◌else◌,
}
use mathlib.Core.Path.{subst}
use bridge_db.Models.{Caller, SourceTrust, operator, agent, ingested, caller_eq, caller_beq_iff}
use bridge_db.Exec.{Exec, Result, ok, err, bind_result}
use bridge_db.Errors.{ToolError, not_a_dispatcher}
use bridge_db.Audit.{Trail}
use bridge_db.Auth.{require_bound_caller, clamp_source_trust}
use bridge_db.Auth.Clamping.{clamped, clamp_source_trust-strict}
use bridge_db.ContentIndex.{upsert_fts_entry, fts_text_for_handoff}
use bridge_db.Handoffs.Tables.{Handoff, Tables, pending, active, status_eq}
use bridge_db.Handoffs.Store.{Store, Call}
use bridge_db.Handoffs.Create.{
  Payload, Created, validate_handoff_payload, insert_handoff, has_room, label, stage,
  report_created, write_handoff, clamp_and_write, create_handoff,
}
use bridge_db.Handoffs.Payload.{Fits, validate_handoff_payload-ok_iff}

-- the label that a request is stored with
abbrev pub stored_label : SourceTrust → SourceTrust
stored_label operator = agent
stored_label trust = trust

abbrev pub asks_operator : SourceTrust → Bool
asks_operator operator = true
asks_operator trust = false

label-stored : (r : SourceTrust) → label (clamped (some r)).0 ≡ stored_label r
label-stored operator = refl
label-stored agent = refl
label-stored ingested = refl

flag-asked : (r : SourceTrust) → (clamped (some r)).1 ≡ asks_operator r
flag-asked operator = refl
flag-asked agent = refl
flag-asked ingested = refl

module _ (call : Call) (caller : Caller) (p : Payload) (requested : SourceTrust) where
  -- the answer to a handoff that was created
  abbrev pub creation : Tables → Created
  creation t = record {
    handoff_id = t.next_id;
    canonical_key = (call.resolve p.project_name).canonical_key;
    source_trust = stored_label requested;
    source_trust_clamped = asks_operator requested;
  }

  abbrev pub with_handoff : Tables → Tables
  with_handoff t = record t {
    handoffs =
        t.handoffs
        ++ record {
          id = t.next_id;
          project_name = p.project_name;
          project_path = p.project_path;
          roadmap_file = p.roadmap_file;
          phase = p.phase;
          dispatched_from = "claude_ai";
          dispatched_at = call.db_now;
          picked_up_at = none;
          cleared_at = none;
          status = pending;
          canonical_key = (call.resolve p.project_name).canonical_key;
          source_trust = stored_label requested;
          claimed_by = none;
        }
          ∷ [];
    next_id = suc t.next_id;
    index =
        upsert_fts_entry "handoff" (str t.next_id)
          (fts_text_for_handoff p.project_name p.project_path p.roadmap_file p.phase) t.index;
  }

  -- The answer, and the tables after it, from the tables `t`.
  pub data Creation (t : Tables) : Result Created → Tables → Type 0 where
    refused : {e : ToolError} → Creation t (err e) t
    created :
        (before : Trail)
        → (require_bound_caller call.settings call.conn caller "create_handoff" before).0 ≡ ok tt
        → caller ≡ Caller.claude_ai
        → Fits p
        → count_where (λ (h : Handoff). h.status == pending || h.status == active) t.handoffs < 100
        → length t.handoffs < 10000
        → Creation t (ok (creation t)) (with_handoff t)

  abbrev at : Tables → Trail → Store
  at t trail = record { tables = t; trail = trail }

  abbrev Ends : Tables → Result Created × Store → Type 0
  Ends t r = Creation t r.0 r.1.tables

  -- the next computation, or a refusal
  next :
      {A : Type 0} (t : Tables) (trail : Trail) (r : Result A) (f : A → Exec Store Created)
      → ((a : A) → r ≡ ok a → Ends t (f a (at t trail)))
      → Ends t (bind_result r f (at t trail))
  next t trail (ok a) f q = q a refl
  next t trail (err e) f q = refused

  -- what was checked before the write
  record Checked : Type 0 where
    before : Trail
    is_bound :
        (require_bound_caller call.settings call.conn caller "create_handoff" before).0 ≡ ok tt
    dispatcher : caller ≡ Caller.claude_ai

  abbrev dispatch : Bool → Result (Unit {0})
  dispatch refuses = if refuses then err (not_a_dispatcher caller) else ok tt

  dispatcher_of :
      (b : Bool) → (caller != Caller.claude_ai) ≡ b → dispatch b ≡ ok tt → caller ≡ Caller.claude_ai
  dispatcher_of true e h = absurd (cc h)
  dispatcher_of false e h = (caller_beq_iff caller Caller.claude_ai).0 (ground arith)

  reported :
      (t : Tables) (trail : Trail) (unmatched : Bool)
      → Checked
      → Fits p
      → has_room t ≡ true
      → Ends t (
          report_created caller p
            (call.resolve p.project_name)
            (stored_label requested)
            (asks_operator requested)
            t.next_id
            unmatched
            (at (with_handoff t) trail))
  reported t trail true c fits room =
      created c.before c.is_bound c.dispatcher fits (ground arith) (ground arith)
  reported t trail false c fits room =
      created c.before c.is_bound c.dispatcher fits (ground arith) (ground arith)

  staged :
      (t : Tables) (trail : Trail)
      → Checked
      → Fits p
      → Ends t (
          stage caller p
            (call.resolve p.project_name)
            (stored_label requested)
            (asks_operator requested)
            (insert_handoff p
              (call.resolve p.project_name).canonical_key
              (stored_label requested)
              call.db_now
              t)
            (at t trail))
  unfolding insert_handoff
  staged t trail c fits = elim (Bool-cases (has_room t)) [
    | inr e ↦ rw e refused
    | inl e ↦
        let resolution = call.resolve p.project_name in
        rw e (reported t trail (resolution.registry_present && not resolution.matched) c fits e)
  ]

  written :
      (t : Tables) (trail : Trail)
      → Checked
      → Ends t (
          write_handoff call caller p
            (stored_label requested)
            (asks_operator requested)
            (at t trail))
  written t trail c =
      next t trail (validate_handoff_payload p tt).0 _
        (λ u e. staged t trail c ((validate_handoff_payload-ok_iff p).0 e))

  clamped-Creation :
      (t : Tables) (trail : Trail)
      → Checked
      → Ends t (clamp_and_write call caller p requested (at t trail))
  clamped-Creation t trail c =
      let clamp =
        clamp_source_trust call.settings (some requested) caller "create_handoff" true trail in
      next t clamp.1 clamp.0 _ (λ u e.
        let same =
          clamp_source_trust-strict call.settings (some requested) caller "create_handoff" trail u
            e in
        subst (λ (x : SourceTrust). Ends t (write_handoff call caller p x u.1 (at t clamp.1)))
          (sym (ap (λ (x : Option SourceTrust × Bool). label x.0) same ∙ label-stored requested))
          (subst
            (λ (b : Bool).
              Ends t (write_handoff call caller p (stored_label requested) b (at t clamp.1)))
            (sym (ap (λ (x : Option SourceTrust × Bool). x.1) same ∙ flag-asked requested))
            (written t clamp.1 c)))

  -- Every branch of `create_handoff`. It answers only a connection that the strict gate bound to
  -- the dispatching caller, for a payload within its bounds and while fewer than 100 handoffs are
  -- open and fewer than 10000 rows stand in the table; then it has appended exactly the pending and
  -- unclaimed row of the answer, under the requested label or under "agent" where that is
  -- "operator". On every other branch it raises and leaves all tables as they were.
  pub create_handoff-Creation :
      (s : Store)
      → Creation s.tables
          (create_handoff call caller p requested s).0
          (create_handoff call caller p requested s).1.tables
  unfolding create_handoff
  create_handoff-Creation s =
      let bound = require_bound_caller call.settings call.conn caller "create_handoff" s.trail in
      next s.tables bound.1 bound.0 _ (λ _ is_bound.
        next s.tables bound.1 (dispatch (caller != Caller.claude_ai)) _ (λ _ dispatches.
          clamped-Creation s.tables bound.1 (record {
            before = s.trail;
            is_bound = is_bound;
            dispatcher = dispatcher_of (caller != Caller.claude_ai) refl dispatches;
          })))
