-- ===== src/Witnesses/Contexts.antt =====
-- The context sections on concrete data.
use bridge_db.Prelude.{
  String, ◌≡◌, ◌≢◌, refl, true, none, some, [], ◌∷◌, arith, count_where, strip, lower, string_eq,
}
use bridge_db.Models.{Principal, Caller, operator, agent}
use bridge_db.Exec.{ok}
use bridge_db.Auth.{
  Settings, Connection, lifespan, require_caller, require_bound_caller, reject_invalid_credential,
  bound_grant_state, get_principal, auth_mode, clamp_source_trust,
}
use bridge_db.Auth.Grants.{Grant, registered}
use bridge_db.Capacity.{require_utf8_bytes, utf8_size}
use bridge_db.Context.Sections.{Section, Tables, Store, update_aborts}
use bridge_db.Context.Upsert.{Write, written, upsert_section}
use bridge_db.Context.Update.{Request, owner_of, write_of, update_section}
use bridge_db.Context.Bounds.{Bounded, History-Bounded}
use bridge_db.Context.Protocol.{Run, start, History, begin, then_promote, run-History}
use bridge_db.Context.Lifecycle.{LaterTables, History-LaterTables}
use bridge_db.Context.Outcomes.{Committed, update_section-Runs, run_promote_section-Committed}
use bridge_db.Context.Ending.{Ended, upsert_section-Ended}
use bridge_db.Context.Answered.{Answered, update_section-Answered}
use bridge_db.Context.Exclusion.{upsert_section-exclusive}
use bridge_db.Context.Progress.{Succeeds, success, update_section-Succeeds}
use bridge_db.Context.Promote.{
  Review, Promotion, section_promotable, section_promoted, run_promote_section,
  run_promote_section-Promotion,
}
use bridge_db.Witnesses.Data.{platform}

abbrev pub career : Section
career = record {
  section_name = "career";
  owner = Caller.claude_ai;
  content = "old";
  updated_at = "2026-01-01T00:00:00Z";
  source_trust = agent;
  version = 3;
}

abbrev pub stored : Store
stored = record {
  tables = record {
    sections = career ∷ [];
    exports = [];
    imports = [];
    conflicts = record { rows = []; next_id = 1 };
    index = [];
  };
  trail = [];
}

abbrev pub steward_grant : Grant
steward_grant = record {
  caller = Principal.claude_ai;
  issued_at = 1;
  expires_at = 5000;
  generation = 1;
  scopes = "update_section" ∷ "sync_from_file" ∷ [];
}

abbrev pub env : Settings
env = record { mode = "enforce"; registry = ("ai-hash", steward_grant) ∷ []; now = 1000 }

abbrev pub conn : Connection
conn = lifespan (some Principal.claude_ai) (some "ai-hash") (some 1)

abbrev pub now : String
now = "2026-01-02T00:00:00Z"

abbrev pub request : Request
request = record {
  section_name = "career";
  content = "new";
  source_trust = some operator;
  if_match_updated_at = none;
  if_match_version = some 3;
  between = λ t. t;
  afterwards = λ t. t;
}

stored-Bounded : Bounded stored.tables.sections
stored-Bounded = record { unique = λ name. ground arith; total = omega arith }

update_section-Runs_example :
    Run stored.tables
      (update_section platform env conn now Caller.claude_ai request stored).1.tables
update_section-Runs_example =
    update_section-Runs platform env conn now Caller.claude_ai request (λ t. start) (λ t. start)
      stored

-- the write, and a promotion of the version that it left
abbrev after_write : Tables
after_write = (update_section platform env conn now Caller.claude_ai request stored).1.tables

one_row : count_where (section_promotable "career" 4 agent) after_write.sections ≡ 1
unfolding update_section require_caller require_bound_caller reject_invalid_credential
    bound_grant_state get_principal auth_mode registered strip lower owner_of update_aborts
    upsert_section clamp_source_trust require_utf8_bytes utf8_size
one_row = refl

abbrev after_promotion : Tables
after_promotion = section_promoted "career" 4 agent after_write

history : History stored.tables (("career", 4) ∷ []) after_promotion
history = then_promote {t = after_write} "career" 4 agent one_row (
    run-History (
      update_section-Runs platform env conn now Caller.claude_ai request (λ t. start) (λ t. start)
        stored))

History-Bounded_example : Bounded after_promotion.sections
History-Bounded_example = History-Bounded history stored-Bounded

History-LaterTables_example : LaterTables (("career", 4) ∷ []) stored.tables after_promotion
History-LaterTables_example = History-LaterTables history

update_section-Succeeds_example :
    Succeeds platform env conn now Caller.claude_ai request career stored.tables
      (update_section platform env conn now Caller.claude_ai request stored)
unfolding require_caller require_bound_caller reject_invalid_credential bound_grant_state
    get_principal auth_mode registered strip lower owner_of update_aborts
update_section-Succeeds_example =
    update_section-Succeeds platform env conn now Caller.claude_ai request stored career refl refl
      refl refl (omega arith) refl refl refl refl

update_section-Answered_example :
    Answered platform env conn now Caller.claude_ai request stored
      (success platform env conn now Caller.claude_ai request stored.tables)
      (update_section platform env conn now Caller.claude_ai request stored).1.tables
unfolding update_section require_caller require_bound_caller reject_invalid_credential
    bound_grant_state get_principal auth_mode registered strip lower owner_of update_aborts
    upsert_section clamp_source_trust require_utf8_bytes utf8_size
update_section-Answered_example =
    update_section-Answered platform env conn now Caller.claude_ai request stored
      (success platform env conn now Caller.claude_ai request stored.tables) refl

abbrev first_write : Write
first_write = write_of platform env conn now Caller.claude_ai request Caller.claude_ai agent

abbrev second_write : Write
second_write = record first_write { content = "other" }

upsert_section-Ended_example :
    Ended now first_write stored.tables
      (upsert_section platform now first_write stored).0
      (upsert_section platform now first_write stored).1.tables
upsert_section-Ended_example = upsert_section-Ended platform now first_write stored

upsert_section-exclusive_example :
    (upsert_section platform now second_write (upsert_section platform now first_write stored).1).0
    ≢ ok written
unfolding upsert_section require_utf8_bytes utf8_size update_aborts
upsert_section-exclusive_example =
    upsert_section-exclusive platform now now first_write second_write 3 stored
      (upsert_section platform now first_write stored).1 [] stored-Bounded (λ e. cc) refl refl refl
      refl begin

abbrev review : Review
review = record { tty = true; answer = some "y"; between = λ t. t }

run_promote_section-Promotion_example :
    Promotion platform review "career" stored.tables
      (run_promote_section platform review "career" stored).0
      (run_promote_section platform review "career" stored).1.tables
run_promote_section-Promotion_example =
    run_promote_section-Promotion platform review "career" stored

run_promote_section-Committed_example :
    Committed "career" stored.tables (run_promote_section platform review "career" stored).1.tables
run_promote_section-Committed_example =
    run_promote_section-Committed platform review "career" (λ t. start) stored
