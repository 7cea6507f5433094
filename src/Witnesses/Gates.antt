-- ===== src/Witnesses/Gates.antt =====
-- The gates and the registry on the data of Witnesses/Data.antt.
use bridge_db.Prelude.{
  String, ◌≡◌, ◌↔◌, refl, true, false, none, some, [], ◌∷◌, All, contains, string_eq, strip, lower,
  codes,
}
use bridge_db.Models.{Principal, Caller, principal_of}
use bridge_db.Json.{object, field, end, int, string, array, cons, nil, get}
use bridge_db.Exec.{ok}
use bridge_db.Auth.{
  Settings, lifespan, require_bound_caller, require_caller, reject_invalid_credential,
  bound_grant_state, get_principal, auth_mode,
}
use bridge_db.Auth.Grants.{
  Grant, registered, RegistryFile, parsed, load_principal_grants, scopes_by_caller, from_version,
  from_principals, load_entries, entry_grant, accept, assemble, build, known_principal,
  is_sha256_hex, text_field, count_field, time_field, list_field, scopes_refused,
}
use bridge_db.Auth.Gates.{Live, require_bound_caller-ok_iff, require_caller-Live}
use bridge_db.Auth.Scopes.{Sound, load_principal_grants-Sound}
use bridge_db.Auth.Authority.{require_bound_caller-allowed}
use bridge_db.Resolver.{Folding, Index, Entry, resolve, normalize, is_empty}
use bridge_db.Resolver.Ambiguity.{Unique, candidates, resolve-Unique}
use bridge_db.Witnesses.Data.{platform, settings}

require_bound_caller-ok_iff_example :
    ((require_bound_caller settings
        (lifespan (some Principal.cc) (some "cc-hash") (some 2))
        Caller.cc
        "pick_up_handoff"
        []).0
      ≡ ok tt)
    ↔ ((g : Grant) × Live settings (some Principal.cc) "cc-hash" (some 2) "pick_up_handoff" g
        × (g.caller ≡ principal_of Caller.cc))
require_bound_caller-ok_iff_example =
    require_bound_caller-ok_iff settings (some Principal.cc) "cc-hash" (some 2) "pick_up_handoff" []
      Caller.cc

passes :
    (require_caller settings
      (lifespan (some Principal.cc) (some "cc-hash") (some 2))
      Caller.cc
      "pick_up_handoff"
      []).0
    ≡ ok tt
unfolding require_caller reject_invalid_credential bound_grant_state get_principal registered
    auth_mode strip lower
passes = refl

require_caller-Live_example :
    (g : Grant) × Live settings (some Principal.cc) "cc-hash" (some 2) "pick_up_handoff" g
require_caller-Live_example =
    require_caller-Live settings (some Principal.cc) "cc-hash" (some 2) "pick_up_handoff" []
      Caller.cc passes

abbrev token_hash : String
token_hash = "0123456789abcdef0123456789abcdef0123456789abcdef0123456789abcdef"

abbrev file : RegistryFile
file = parsed (
    object (
      field "version" (int 2) (
        field "principals"
          (object (
            field "codex"
              (object (
                field "token_sha256" (string token_hash) (
                  field "issued_at" (string "2026-01-01T00:00:00Z") (
                    field "expires_at" (string "2026-02-01T00:00:00Z") (
                      field "generation" (int 3)
                        (field "scopes" (array (cons (string "log_activity") nil)) end))))))
              end))
          end)))

abbrev loaded : Settings
loaded = record {
  mode = "warn";
  registry = load_principal_grants platform.from_iso file;
  now = 1000;
}

load_principal_grants-Sound_example : All Sound (load_principal_grants platform.from_iso file)
load_principal_grants-Sound_example = load_principal_grants-Sound platform.from_iso file

loaded_passes :
    (require_bound_caller loaded
      (lifespan (some Principal.codex) (some token_hash) (some 3))
      Caller.codex
      "log_activity"
      []).0
    ≡ ok tt
unfolding require_bound_caller reject_invalid_credential bound_grant_state get_principal registered
    load_principal_grants from_version from_principals load_entries entry_grant accept assemble
    build known_principal is_sha256_hex text_field count_field time_field list_field scopes_refused
    scopes_by_caller get
loaded_passes = refl

require_bound_caller-allowed_example :
    contains (scopes_by_caller (principal_of Caller.codex)) "log_activity" ≡ true
require_bound_caller-allowed_example =
    require_bound_caller-allowed platform.from_iso file loaded (some Principal.codex) token_hash
      (some 3) Caller.codex "log_activity" [] refl loaded_passes

abbrev entry : Entry
entry = record {
  canonical_key = some "saagpatel/bridge-db";
  notion_page_id = none;
  notion_title = none;
}

abbrev folding : Folding
folding = record { lower = lower; casefold = lower }

abbrev index : Index
index = record {
  exact_to_entries = (codes "bridge-db", entry ∷ []) ∷ [];
  norm_to_entries = (codes "bridgedb", entry ∷ []) ∷ [];
  override_norm_to_entries = [];
}

resolve-Unique_example :
    ((resolve folding (some index) "bridge-db").matched ≡ true
      → (is_empty (normalize folding "bridge-db") ≡ false)
        × Unique (candidates folding index "bridge-db") (resolve folding (some index) "bridge-db"))
    × ((resolve folding (some index) "bridge-db").matched ≡ false
        → (resolve folding (some index) "bridge-db").canonical_key ≡ none)
resolve-Unique_example = resolve-Unique folding index "bridge-db"
