-- ===== src/Auth/Grants.antt =====
-- `scopes_for_caller`, `load_principal_grants` and `resolve_grant` of src/bridge_db/auth.py.
-- The file's reading and the parsers of JSON and of time stamps are not in the repository: the
-- file comes as `RegistryFile`, and `from_iso` gives an aware time stamp in microseconds.
use bridge_db.Prelude.{
  ◌≡◌, refl, ℕ, String, Bool, true, false, ◌&&◌, ◌||◌, not, Option, none, some, List, [], ◌∷◌, leb,
  codes, length, every, contains, ◌==◌, ◌!=◌, nat_eq, string_eq, if◌then◌else◌,
}
use bridge_db.Models.{Principal, principal_ids}
use bridge_db.Json
use bridge_db.Json.{Json, Items, nil, cons, Fields, end, field, int, string, array, object}

-- PrincipalGrant
pub record Grant : Type 0 where
  pub caller : Principal
  pub issued_at : ℕ
  pub expires_at : ℕ
  pub generation : ℕ
  pub scopes : List String

abbrev pub Registry : Type 0
Registry = List (String × Grant)

-- grants.get(hash)
unfoldable pub registered : String → Registry → Option Grant
registered hash [] = none
registered hash ((h, g) ∷ rest) =
    let later = registered hash rest in if h == hash then some g else later

-- _SCOPES_BY_CALLER
unfoldable pub scopes_by_caller : Principal → List String
scopes_by_caller Principal.cc =
    "log_activity" ∷ "save_snapshot" ∷ "get_snapshot_capacity" ∷ "acknowledge_snapshot_refusal"
    ∷ "record_cost" ∷ "record_disposition" ∷ "pick_up_handoff" ∷ "clear_handoff" ∷ "sync_from_file"
    ∷ "export_bridge_markdown" ∷ "seal_recovery_batch" ∷ []
scopes_by_caller Principal.codex =
    "log_activity" ∷ "save_snapshot" ∷ "get_snapshot_capacity" ∷ "acknowledge_snapshot_refusal"
    ∷ "record_cost" ∷ "record_disposition" ∷ "pick_up_handoff" ∷ "clear_handoff"
    ∷ "export_bridge_markdown" ∷ "seal_recovery_batch" ∷ []
scopes_by_caller Principal.claude_ai =
    "update_section" ∷ "create_handoff" ∷ "export_bridge_markdown" ∷ []
scopes_by_caller Principal.notion_os =
    "log_activity" ∷ "record_cost" ∷ "record_disposition" ∷ "export_bridge_markdown" ∷ []
scopes_by_caller Principal.personal_ops =
    "log_activity" ∷ "record_cost" ∷ "record_disposition" ∷ "export_bridge_markdown" ∷ []
scopes_by_caller Principal.hermes = []

-- What `path.read_text` and `json.loads` give.
pub data RegistryFile : Type 0 where
  missing unreadable malformed : RegistryFile
  parsed : Json → RegistryFile

-- `caller not in PRINCIPAL_IDS`
unfoldable pub known_principal : String → List (String × Principal) → Option Principal
known_principal name [] = none
known_principal name ((n, p) ∷ rest) =
    let later = known_principal name rest in if n == name then some p else later

is_hex : ℕ → Bool
is_hex c = (leb b'0' c && leb c b'9') || (leb b'a' c && leb c b'f')

unfoldable pub is_sha256_hex : String → Bool
unfolding is_hex
is_sha256_hex s = length (codes s) == 64 && every is_hex (codes s)

-- `entry.get(key)` as a str, and as an int that is not a bool
unfoldable pub text_field : Option Json → Option String
text_field (some (string s)) = some s
text_field _ = none

unfoldable pub count_field : Option Json → Option ℕ
count_field (some (int n)) = if leb 1 n then some n else none
count_field _ = none

-- `all(isinstance(scope, str) for scope in scopes)`, with the scopes
strings : Items → Option (List String)
strings nil = some []
strings (cons (string s) rest) = elim (strings rest) [ none ↦ none | some ss ↦ some (s ∷ ss) ]
strings (cons _ rest) = none

unfoldable pub list_field : Option Json → Option (List String)
unfolding strings
list_field (some (array items)) = strings items
list_field _ = none

abbrev is_empty : List String → Bool
is_empty [] = true
is_empty (_ ∷ _) = false

-- `(not scope_set and allowed_scopes) or not scope_set.issubset(allowed_scopes)`
unfoldable pub scopes_refused : List String → List String → Bool
scopes_refused scopes allowed =
    (is_empty scopes && not (is_empty allowed)) || not (every (contains allowed) scopes)

infixl 5 ◌>>=◌
abbrev pub ◌>>=◌ : {A B : Type 0} → Option A → (A → Option B) → Option B
o >>= f = elim o [ none ↦ none | some a ↦ f a ]

-- The last checks of an entry, and its grant.
unfoldable pub build : Principal → String → ℕ → ℕ → ℕ → List String → Option (String × Grant)
build caller token_hash issued_at expires_at generation scopes =
    if is_sha256_hex token_hash && not (scopes_refused scopes (scopes_by_caller caller))
    then some (
      token_hash,
      record {
        caller = caller;
        issued_at = issued_at;
        expires_at = expires_at;
        generation = generation;
        scopes = scopes;
      },
    )
    else none

unfoldable pub assemble :
    Option Principal
    → Option String
    → Option ℕ
    → Option ℕ
    → Option ℕ
    → Option (List String)
    → Option (String × Grant)
assemble caller token_hash issued_at expires_at generation scopes = do
  c ← caller
  h ← token_hash
  i ← issued_at
  e ← expires_at
  g ← generation
  ss ← scopes
  build c h i e g ss

pub bind-eq-some :
    {A B : Type 0} (o : Option A) (f : A → Option B) {b : B}
    → (o >>= f) ≡ some b
    → (a : A) × (o ≡ some a) × (f a ≡ some b)
bind-eq-some none f h = cc
bind-eq-some (some a) f h = (a, refl, h)

-- An entry that passed is stored; `none` in front of the loop's `return {}`.
unfoldable pub accept : Option (String × Grant) → Registry → Option Registry
unfolding registered
accept none result = some result
accept (some (token_hash, grant)) result = elim (registered token_hash result) [
  | none ↦ some ((token_hash, grant) ∷ result)
  | some _ ↦ none
]

module _ (from_iso : String → Option ℕ) where
  -- `_parse_utc_timestamp`
  unfoldable pub time_field : Option Json → Option ℕ
  unfolding text_field
  time_field value = text_field value >>= from_iso

  -- One entry of the registry with its token hash, or `none` where the loop goes on.
  unfoldable pub entry_grant : String → Json → Option (String × Grant)
  unfolding known_principal is_sha256_hex time_field text_field count_field list_field
      scopes_refused scopes_by_caller
  entry_grant name (object entry) =
      assemble (known_principal name principal_ids) (text_field (Json.get entry "token_sha256"))
        (time_field (Json.get entry "issued_at")) (time_field (Json.get entry "expires_at"))
        (count_field (Json.get entry "generation")) (list_field (Json.get entry "scopes"))
  entry_grant name _ = none

  -- The loop over the entries; `none` where a token hash comes twice.
  unfoldable pub load_entries : Fields → Registry → Option Registry
  unfolding entry_grant accept
  load_entries end result = some result
  load_entries (field name value rest) result =
      accept (entry_grant name value) result >>= load_entries rest

  abbrev pub or_empty : Option Registry → Registry
  or_empty none = []
  or_empty (some r) = r

  unfoldable pub from_principals : Option Json → Registry
  unfolding load_entries
  from_principals (some (object entries)) = or_empty (load_entries entries [])
  from_principals _ = []

  unfoldable pub from_version : Option Json → Option Json → Registry
  unfolding from_principals
  from_version (some (int version)) principals =
      if version != 2 then [] else from_principals principals
  from_version _ principals = []

  -- The version is compared as an int: a float 2.0, which Python takes for 2, is not.
  -- Every fault of the file gives no grants.
  unfoldable pub load_principal_grants : RegistryFile → Registry
  unfolding from_version
  load_principal_grants (parsed (object raw)) =
      from_version (Json.get raw "version") (Json.get raw "principals")
  load_principal_grants _ = []

-- `token` is absent or empty, or is looked up by its hash.
unfoldable pub resolve_grant : (String → String) → Option String → Registry → Option Grant
unfolding registered
resolve_grant sha256 none grants = none
resolve_grant sha256 (some token) grants =
    if token == "" then none else registered (sha256 token) grants
