-- ===== src/Auth.antt =====
-- src/bridge_db/auth.py: the channel-bound identity and the gates that the write tools call.
-- A gate reads the registry file and the clock; `Settings` is what it reads. `auth.load_principal_grants`
-- is in Auth/Grants.antt.
pub mod Grants
pub mod Gates
pub mod Clamping
pub mod Scopes
pub mod Authority
pub use Grants.{Grant, Registry}
use bridge_db.Prelude.{
  ℕ, String, ◌<>◌, Bool, true, false, ◌&&◌, ◌||◌, not, Option, none, some, List, [], ◌∷◌, leb,
  lower, strip, codes, contains, is_none, ◌==◌, ◌!=◌, nat_eq, string_eq, list_eq, option_eq,
  if◌then◌else◌,
}
use bridge_db.Models.{
  Principal, Caller, SourceTrust, operator, agent, principal_of, principal_name, caller_name,
  principal_eq, trust_eq,
}
use bridge_db.Errors.{
  ToolError, credential_expired, credential_generation_changed, credential_principal_changed,
  credential_not_enrolled, credential_invalid, unauthenticated, credential_out_of_scope,
  caller_mismatch,
}
use bridge_db.Exec.{Exec, Result, ok, err, pure, raise, ◌>>=◌, ◌>>◌}
use bridge_db.Audit.{Trail, log_audit}

pub data Mode : Type 0 where
  off warn enforce : Mode

-- The reasons of `_bound_grant_state`.
pub data Refusal : Type 0 where
  unbound not_enrolled principal_changed generation_changed expired out_of_scope : Refusal

-- `ctx`: without a lifespan, or with the principal, the credential hash and the generation that
-- the connection bound at its start.
pub data Connection : Type 0 where
  no_lifespan : Connection
  lifespan : Option Principal → Option String → Option ℕ → Connection

pub record Settings : Type 0 where
  pub mode : String  -- config.AUTH_MODE
  pub registry : Registry  -- load_principal_grants(config.PRINCIPALS_PATH)
  pub now : ℕ  -- clock.now()

unfoldable pub auth_mode : String → Mode
auth_mode raw =
    let mode = lower (strip (codes raw)) in
    if mode == codes "off"
    then Mode.off
    else if mode == codes "warn"
    then Mode.warn
    else Mode.enforce

pub record GrantState : Type 0 where
  pub grant : Option Grant
  pub reason : Option Refusal
  pub principal : Option Principal

abbrev pub refuse : Refusal → Option Principal → GrantState
refuse r p = record { grant = none; reason = some r; principal = p }

-- `tool is not None and tool not in grant.scopes`
abbrev pub outside : Option String → Grant → Bool
outside none grant = false
outside (some tool) grant = not (contains grant.scopes tool)

-- The checks of a grant that the registry has under the bound hash.
abbrev pub check_grant :
    Settings → Option Principal → Option ℕ → Option String → Option Grant → GrantState
check_grant env principal generation tool none = refuse not_enrolled principal
check_grant env principal generation tool (some grant) =
    if some grant.caller != principal
    then refuse principal_changed principal
    else if generation != some grant.generation
    then refuse generation_changed principal
    else if leb grant.expires_at env.now
    then refuse expired principal
    else if outside tool grant
    then refuse out_of_scope principal
    else record { grant = some grant; reason = none; principal = principal }

unfoldable pub bound_grant_state : Settings → Connection → Option String → GrantState
bound_grant_state env no_lifespan tool = refuse unbound none
bound_grant_state env (lifespan principal none generation) tool = record {
  grant = none;
  reason = none;
  principal = principal;
}
bound_grant_state env (lifespan principal (some hash) generation) tool =
    check_grant env principal generation tool (Grants.registered hash env.registry)

abbrev holder : GrantState → Option Principal
holder s = elim s.reason [
  | none ↦ elim s.grant [ none ↦ s.principal | some g ↦ some g.caller ]
  | some r ↦ none
]

unfoldable pub get_principal : Settings → Connection → Option Principal
unfolding bound_grant_state
get_principal env conn = holder (bound_grant_state env conn none)

-- `principal or 'unbound'`
abbrev pub name_or_unbound : Option Principal → String
name_or_unbound none = "unbound"
name_or_unbound (some p) = principal_name p

abbrev pub name_of : Option Principal → Option String
name_of none = none
name_of (some p) = some (principal_name p)

abbrev reason_name : Refusal → String
reason_name unbound = "unbound"
reason_name not_enrolled = "not_enrolled"
reason_name principal_changed = "principal_changed"
reason_name generation_changed = "generation_changed"
reason_name expired = "expired"
reason_name out_of_scope = "out_of_scope"

abbrev refusal_event : Refusal → String
refusal_event not_enrolled = "auth.revoked"
refusal_event _ = "auth.denied"

abbrev refusal_error : Refusal → String → ToolError
refusal_error expired tool = credential_expired
refusal_error out_of_scope tool = credential_out_of_scope tool
refusal_error generation_changed tool = credential_generation_changed
refusal_error principal_changed tool = credential_principal_changed
refusal_error not_enrolled tool = credential_not_enrolled
refusal_error unbound tool = credential_invalid

abbrev is_unbound : Refusal → Bool
is_unbound unbound = true
is_unbound _ = false

abbrev reject_reason : Refusal → Option Principal → String → String → Exec Trail (Unit {0})
reject_reason r cached caller tool = if is_unbound r && is_none cached then pure tt else do
  log_audit (refusal_event r) (name_of cached) none false (
      some (
        "tool="
        <> tool
        <> " principal="
        <> name_or_unbound cached
        <> " caller="
        <> caller
        <> " reason="
        <> reason_name r))
  raise (refusal_error r tool)

unfoldable pub reject_invalid_credential :
    Settings → Connection → String → String → Exec Trail (Unit {0})
unfolding bound_grant_state
reject_invalid_credential env conn caller tool =
    let s = bound_grant_state env conn (some tool) in
    elim s.reason [ none ↦ pure tt | some r ↦ reject_reason r s.principal caller tool ]

abbrev mismatch_detail : String → Option Principal → String → String → String
mismatch_detail tool principal caller mode =
    "tool="
    <> tool
    <> " principal="
    <> name_or_unbound principal
    <> " caller="
    <> caller
    <> " mode="
    <> mode

abbrev raise_mismatch : Option Principal → Caller → Exec Trail (Unit {0})
raise_mismatch none caller = raise unauthenticated
raise_mismatch (some p) caller = raise (caller_mismatch p caller)

-- The identity boundary of the sensitive sinks, whatever the rollout mode is.
unfoldable pub require_bound_caller :
    Settings → Connection → Caller → String → Exec Trail (Unit {0})
unfolding reject_invalid_credential get_principal
require_bound_caller env conn caller tool = do
  reject_invalid_credential env conn (caller_name caller) tool
  let principal = get_principal env conn
  if principal == some (principal_of caller) then pure tt else do
    log_audit "auth.mismatch" (name_of principal) none false
        (some (mismatch_detail tool principal (caller_name caller) "strict"))
    raise_mismatch principal caller

abbrev principal_or_raise : String → Option Principal → Exec Trail Principal
principal_or_raise tool (some p) = pure p
principal_or_raise tool none = do
  log_audit "auth.mismatch" none none false
      (some ("tool=" <> tool <> " principal=unbound decision=unbound mode=strict"))
  raise unauthenticated

unfoldable pub require_bound_principal : Settings → Connection → String → Exec Trail Principal
unfolding reject_invalid_credential get_principal
require_bound_principal env conn tool = do
  reject_invalid_credential env conn "implicit" tool
  principal_or_raise tool (get_principal env conn)

abbrev mode_name : Mode → String
mode_name off = "off"
mode_name warn = "warn"
mode_name enforce = "enforce"

-- `warn` lets a mismatch pass after the audit line.
abbrev settle_mismatch : Mode → Option Principal → Caller → Exec Trail (Unit {0})
settle_mismatch warn principal caller = pure tt
settle_mismatch _ principal caller = raise_mismatch principal caller

abbrev cross_check : Settings → Connection → Caller → String → Mode → Exec Trail (Unit {0})
cross_check env conn caller tool off = pure tt
cross_check env conn caller tool mode =
    let principal = get_principal env conn in
    if principal == some (principal_of caller) then pure tt else do
      log_audit "auth.mismatch" (some (caller_name caller)) none false
          (some (mismatch_detail tool principal (caller_name caller) (mode_name mode)))
      settle_mismatch mode principal caller

unfoldable pub require_caller : Settings → Connection → Caller → String → Exec Trail (Unit {0})
unfolding reject_invalid_credential get_principal auth_mode
require_caller env conn caller tool = do
  reject_invalid_credential env conn (caller_name caller) tool
  cross_check env conn caller tool (auth_mode env.mode)

abbrev pub is_off : Mode → Bool
is_off off = true
is_off _ = false

-- The stored label and whether it was clamped; `none` is a label that was not given.
unfoldable pub clamp_source_trust :
    Settings → Option SourceTrust → Caller → String → Bool → Exec Trail (Option SourceTrust × Bool)
unfolding auth_mode
clamp_source_trust env requested caller tool strict =
    if (is_off (auth_mode env.mode) && not strict) || requested != some operator
    then pure (requested, false)
    else do
      log_audit "auth.trust_clamped" (some (caller_name caller)) none false
          (some ("tool=" <> tool <> " requested=operator stored=agent"))
      pure (some agent, true)
