-- ===== src/Conflicts.antt =====
-- The write-conflict ledger of src/bridge_db/db.py (table write_conflicts): receipts of refused
-- writes, one row for each identity, counted, with a quota of identities and a row of overflow.
-- Times are the texts that SQLite's strftime gives, handed in as `now`.
pub mod Receipts
pub mod Quota
use Prim.Native.String.{len}
use bridge_db.Prelude.{
  ℕ, suc, ◌+◌, String, ◌<>◌, Bool, true, false, ◌&&◌, ◌||◌, not, Option, none, some, List, [], ◌∷◌,
  ◌++◌, leb, ltb, str, ◌==◌, string_eq, option_eq, is_some, exists, count_where, if◌then◌else◌,
}
use bridge_db.Models.{SourceTrust, trust_name}
use bridge_db.Json.{Json, Fields, field, end, null, int, string, object, bool}
use bridge_db.Platform.{Platform}

-- The columns that identify a conflict.
pub record Attempt : Type 0 where
  pub surface : String
  pub target_key : String
  pub operation : String
  pub attempted_by : Option String
  pub principal : Option String
  pub stale_version : Option ℕ
  pub current_version : Option ℕ
  pub stale_updated_at : Option String
  pub current_updated_at : Option String
  pub attempted_source_trust : Option SourceTrust
  pub current_source_trust : Option SourceTrust
  pub attempted_content_sha256 : Option String
  pub current_content_sha256 : Option String
  pub reason : String

pub data Aggregation : Type 0 where
  legacy exact_identity capacity_overflow : Aggregation

pub record Conflict : Type 0 where
  pub id : ℕ
  pub attempt : Attempt
  pub detail : String
  pub identity_hash : Option String
  pub occurrence_count : ℕ
  pub last_seen_at : String
  pub aggregation_state : Aggregation

pub record Ledger : Type 0 where
  pub rows : List Conflict
  pub next_id : ℕ  -- AUTOINCREMENT

abbrev pub detail_max_bytes : ℕ
detail_max_bytes = 16384

abbrev pub max_identities : ℕ
max_identities = 10000

abbrev text_or_null : Option String → Json
text_or_null none = null
text_or_null (some s) = string s

abbrev int_or_null : Option ℕ → Json
int_or_null none = null
int_or_null (some n) = int n

abbrev trust_or_null : Option SourceTrust → Json
trust_or_null none = null
trust_or_null (some t) = string (trust_name t)

module _ (pf : Platform) where
  unfoldable pub bounded_conflict_detail : Fields → String
  bounded_conflict_detail detail =
      let encoded = pf.dumps (object detail) in
      if leb (len encoded) detail_max_bytes
      then encoded
      else pf.dumps (
          object (
            field "detail_truncated" (bool true) (
              field "original_utf8_bytes" (int (len encoded))
                (field "sha256" (string (pf.sha256 encoded)) end))))

  unfoldable pub write_conflict_identity : Fields → String
  write_conflict_identity fields = pf.sha256 (pf.dumps (object fields))

  unfoldable pub identity_fields : Attempt → Fields
  identity_fields a = field "surface" (string a.surface) (
      field "target_key" (string a.target_key) (
        field "operation" (string a.operation) (
          field "attempted_by" (text_or_null a.attempted_by) (
            field "principal" (text_or_null a.principal) (
              field "stale_version" (int_or_null a.stale_version) (
                field "current_version" (int_or_null a.current_version) (
                  field "stale_updated_at" (text_or_null a.stale_updated_at) (
                    field "current_updated_at" (text_or_null a.current_updated_at) (
                      field "attempted_source_trust" (trust_or_null a.attempted_source_trust) (
                        field "current_source_trust" (trust_or_null a.current_source_trust) (
                          field "attempted_content_sha256" (text_or_null a.attempted_content_sha256)
                            (field "current_content_sha256" (text_or_null a.current_content_sha256)
                              (field "reason" (string a.reason) end)))))))))))))

-- The ON CONFLICT clause: one more occurrence of the row that has the hash, and its id.
unfoldable pub bump : String → String → String → List Conflict → Option (ℕ × List Conflict)
bump hash detail now [] = none
bump hash detail now (r ∷ rs) =
    if r.identity_hash == some hash
    then some (
      r.id,
      record r { occurrence_count = r.occurrence_count + 1; last_seen_at = now; detail = detail }
          ∷ rs,
    )
    else elim (bump hash detail now rs) [ none ↦ none | some (i, rs') ↦ some (i, r ∷ rs') ]

abbrev pub has_identity : Conflict → Bool
has_identity r = is_some r.identity_hash

abbrev pub within_quota : String → Ledger → Bool
within_quota hash ledger =
    exists (λ (r : Conflict). r.identity_hash == some hash) ledger.rows
    || ltb (count_where has_identity ledger.rows) max_identities

abbrev pub new_row : ℕ → Attempt → String → String → String → Aggregation → Conflict
new_row id attempt detail hash now state = record {
  id = id;
  attempt = attempt;
  detail = detail;
  identity_hash = some hash;
  occurrence_count = 1;
  last_seen_at = now;
  aggregation_state = state;
}

-- The statement's insert or update; `none` where the quota lets no row be selected.
unfoldable pub upsert_write_conflict :
    Attempt → String → String → Aggregation → Bool → String → Ledger → Option ℕ × Ledger
unfolding bump
upsert_write_conflict attempt detail hash state enforce now ledger =
    if not enforce || within_quota hash ledger
    then elim (bump hash detail now ledger.rows) [
      | none ↦ (
        some ledger.next_id,
        record {
          rows = ledger.rows ++ new_row ledger.next_id attempt detail hash now state ∷ [];
          next_id = suc ledger.next_id;
        },
      )
      | some (i, rows) ↦ (some i, record ledger { rows = rows })
    ]
    else (none, ledger)

abbrev pub overflow_attempt : String → Attempt
overflow_attempt surface = record {
  surface = surface;
  target_key = "__capacity_overflow__";
  operation = "aggregate_write_conflict";
  attempted_by = none;
  principal = none;
  stale_version = none;
  current_version = none;
  stale_updated_at = none;
  current_updated_at = none;
  attempted_source_trust = none;
  current_source_trust = none;
  attempted_content_sha256 = none;
  current_content_sha256 = none;
  reason = "distinct_identity_quota_exceeded";
}

-- `if receipt_id is not None: return receipt_id`
abbrev pub or_overflow : Option ℕ → Ledger → Option ℕ × Ledger → Option ℕ × Ledger
or_overflow (some id) ledger overflow = (some id, ledger)
or_overflow none ledger overflow = overflow

module _ (pf : Platform) where
  unfoldable pub overflow_hash : String → String
  unfolding write_conflict_identity
  overflow_hash surface = write_conflict_identity pf (
      field "aggregation_state" (string "capacity_overflow") (field "surface" (string surface) end))

  abbrev pub overflow_detail : String → Fields
  overflow_detail hash =
      field "detail_truncated" (bool true) (
        field "latest_identity_hash" (string hash)
          (field "identity_quota" (int max_identities) end))

  unfoldable pub attempt_hash : Attempt → String
  unfolding write_conflict_identity identity_fields
  attempt_hash attempt = write_conflict_identity pf (identity_fields pf attempt)

  -- A receipt of its own identity, or one more occurrence of the surface's overflow row; `none`
  -- stands for the RuntimeError of a failed overflow.
  unfoldable pub record_write_conflict : Attempt → Fields → String → Ledger → Option ℕ × Ledger
  record_write_conflict attempt detail now ledger =
      let hash = attempt_hash attempt in
      let (receipt, ledger') =
        upsert_write_conflict attempt (bounded_conflict_detail pf detail) hash exact_identity true
          now ledger in
      or_overflow receipt ledger' (
        upsert_write_conflict (overflow_attempt attempt.surface)
          (bounded_conflict_detail pf (overflow_detail hash)) (overflow_hash attempt.surface)
          capacity_overflow false now ledger')

  -- The retry's receipt is the same record under the full identity.
  unfoldable pub record_write_conflict_once : Attempt → Fields → String → Ledger → Option ℕ × Ledger
  record_write_conflict_once = record_write_conflict
