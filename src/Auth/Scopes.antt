-- ===== src/Auth/Scopes.antt =====
-- What `load_principal_grants` lets into the registry.
use mathlib.Core.Path.{subst}
use mathlib.Core.Option.{some-injective}
use bridge_db.Prelude.{
  ℕ, String, ◌≡◌, refl, ◌≤◌, true, false, Option, none, some, List, [], All, string_eq, arith,
  Option-cases, Bool-cases, ◌!=◌, nat_eq, inl, inr,
}
use bridge_db.Models.{Principal}
use bridge_db.Json
use bridge_db.Json.{
  Json, Fields, end, field, null, bool, int, neg_int, float, string, array, object,
}
use bridge_db.Auth.Grants.{
  Grant, Registry, RegistryFile, parsed, registered, scopes_by_caller, is_sha256_hex, entry_grant,
  load_entries, load_principal_grants, scopes_refused, or_empty, count_field, from_principals,
  from_version, build, bind-eq-some, accept, assemble, build, assemble,
}

-- What the loader promises of one entry: a SHA-256 in hex, a generation from 1 up, scopes that lie
-- in the caller's closed set, and some scope unless the caller has none.
pub record Sound (entry : String × Grant) : Type 0 where
  pub hash_hex : is_sha256_hex entry.0 ≡ true
  pub generation_pos : 1 ≤ entry.1.generation
  pub scopes_allowed : scopes_refused entry.1.scopes (scopes_by_caller entry.1.caller) ≡ false

count_field-pos : (j : Option Json) (n : ℕ) → count_field j ≡ some n → 1 ≤ n
unfolding count_field
count_field-pos (some (int m)) n h = ground arith
count_field-pos none n h = cc
count_field-pos (some _) n h = cc

build-Sound :
    (caller : Principal) (token_hash : String) (issued_at expires_at generation : ℕ)
    (scopes : List String) (entry : String × Grant)
    → 1 ≤ generation
    → build caller token_hash issued_at expires_at generation scopes ≡ some entry
    → Sound entry
unfolding build
build-Sound caller token_hash issued_at expires_at generation scopes entry p h = ground arith

assemble-Sound :
    (caller : Option Principal) (token_hash : Option String)
    (issued_at expires_at generation : Option ℕ) (scopes : Option (List String))
    (entry : String × Grant)
    → ((n : ℕ) → generation ≡ some n → 1 ≤ n)
    → assemble caller token_hash issued_at expires_at generation scopes ≡ some entry
    → Sound entry
unfolding assemble
assemble-Sound (some c) (some t) (some i) (some e) (some n) (some ss) entry p h =
    build-Sound c t i e n ss entry (p n refl) h
assemble-Sound _ _ _ _ _ _ entry p h = cc

accept-Sound :
    (o : Option (String × Grant)) (result r : Registry)
    → ((entry : String × Grant) → o ≡ some entry → Sound entry)
    → All Sound result
    → accept o result ≡ some r
    → All Sound r
unfolding accept
accept-Sound none result r p a h = subst (All Sound) (some-injective _ _ h) a
accept-Sound (some (t, g)) result r p a h = elim (Option-cases (registered t result)) [
  | inl e ↦ subst (All Sound) (some-injective _ _ (rw (e, accept) at h)) (p (t, g) refl, a)
  | inr (_, e) ↦ absurd (cc (rw (e, accept) at h))
]

module _ (from_iso : String → Option ℕ) where
  entry-Sound :
      (name : String) (value : Json) (entry : String × Grant)
      → entry_grant from_iso name value ≡ some entry
      → Sound entry
  unfolding entry_grant
  entry-Sound name (object fields) entry h =
      assemble-Sound _ _ _ _ (count_field (Json.get fields "generation")) _ entry
        (count_field-pos (Json.get fields "generation")) h
  entry-Sound name null entry h = cc
  entry-Sound name (bool b) entry h = cc
  entry-Sound name (int b) entry h = cc
  entry-Sound name (neg_int b) entry h = cc
  entry-Sound name (float b) entry h = cc
  entry-Sound name (string b) entry h = cc
  entry-Sound name (array b) entry h = cc

  -- All the loop keeps.
  load_entries-Sound :
      (entries : Fields) (result r : Registry)
      → All Sound result
      → load_entries from_iso entries result ≡ some r
      → All Sound r
  unfolding load_entries
  load_entries-Sound end result r a h = subst (All Sound) (some-injective _ _ h) a
  load_entries-Sound (field name value rest) result r a h =
      let (result', e, h') =
        bind-eq-some (accept (entry_grant from_iso name value) result) (load_entries from_iso rest)
          h in
      load_entries-Sound rest result' r
        (accept-Sound (entry_grant from_iso name value) result result' (entry-Sound name value) a e)
        h'

  from_entries-Sound :
      (o : Option Registry)
      → ((r : Registry) → o ≡ some r → All Sound r)
      → All Sound (or_empty from_iso o)
  from_entries-Sound none h = tt
  from_entries-Sound (some r) h = h r refl

  from_principals-Sound :
      (principals : Option Json) → All Sound (from_principals from_iso principals)
  unfolding from_principals
  from_principals-Sound (some (object entries)) =
      from_entries-Sound (load_entries from_iso entries [])
        (λ r. load_entries-Sound entries [] r tt)
  from_principals-Sound _ = tt

  from_version-Sound :
      (version principals : Option Json) → All Sound (from_version from_iso version principals)
  unfolding from_version
  from_version-Sound (some (int v)) principals = elim (Bool-cases (v != 2)) [
    | inl e ↦ rw e tt
    | inr e ↦ rw e (from_principals-Sound principals)
  ]
  from_version-Sound _ principals = tt

  -- Whatever the enrolment file holds, each grant that `load_principal_grants` returns stands under
  -- a SHA-256 in hex, has a generation from 1 up and only scopes of its caller's closed set, and has
  -- a scope unless that set is empty.
  pub load_principal_grants-Sound :
      (file : RegistryFile) → All Sound (load_principal_grants from_iso file)
  unfolding load_principal_grants
  load_principal_grants-Sound (parsed (object raw)) =
      from_version-Sound (Json.get raw "version") (Json.get raw "principals")
  load_principal_grants-Sound _ = tt
