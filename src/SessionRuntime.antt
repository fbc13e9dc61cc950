-- ===== src/SessionRuntime.antt =====
-- packages/orchestrator/src/server/services/session-runtime.ts: where a session comes from, what a
-- request must look like, the credentials of a tenant, the kind of an error and the transcript. A
-- text is a number, and 0 is the empty one; `trim` is `String.trim`.
pub mod Spawn
pub mod Outcome
pub mod Waiting
pub mod Collected
mod Tests
use claude_agent_runner.Common.{
  ℕ, Option, none, some, Bool, true, false, ◌&&◌, ◌||◌, List, [], ◌∷◌, if◌then◌else◌, ◌==◌, get_or,
  is_some,
}
use claude_agent_runner.Common.Dict.{insert}
use claude_agent_runner.Sessions.{SessionManager, Session, name_exists}
use claude_agent_runner.Tenants.{TenantManager, Tenant}
use claude_agent_runner.Tenants
use claude_agent_runner.WarmPool.{truthy}

pub data SourceType : Type 0 where
  from_repo from_vault from_workspace ephemeral : SourceType

pub record SessionSource : Type 0 where
  pub source_type : SourceType
  pub repo : Option ℕ
  pub branch : Option ℕ
  pub workspace : Option ℕ
  pub vault : Option ℕ

abbrev pub source_type_of : Option ℕ → Option ℕ → Option ℕ → SourceType
source_type_of repo vault workspace =
    if truthy repo
    then from_repo
    else if truthy vault
    then from_vault
    else if truthy workspace
    then from_workspace
    else ephemeral

pub get_session_source : Option ℕ → Option ℕ → Option ℕ → Option ℕ → SessionSource
get_session_source repo branch workspace vault = record {
  source_type = source_type_of repo vault workspace;
  repo = if truthy repo then repo else none;
  branch = if truthy repo then branch else none;
  workspace = if truthy workspace then workspace else none;
  vault = if truthy vault then vault else none;
}

-- The `pinned` field of a body: missing, a Boolean, or anything else.
pub data PinnedField : Type 0 where
  no_pinned other_pinned : PinnedField
  pinned : Bool → PinnedField

pub record SessionRequest : Type 0 where
  pub message : Option ℕ
  pub name : Option ℕ
  pub pinned : PinnedField
  pub repo : Option ℕ
  pub branch : Option ℕ
  pub vault : Option ℕ
  pub workspace : Option ℕ
  pub agent_id : Option ℕ
  pub model : Option ℕ
  pub system_prompt : Option ℕ
  pub append_system_prompt : Option ℕ
  pub max_turns : Option ℕ
  pub thinking : Option Bool
  pub allowed_tools : Option ℕ
  pub disallowed_tools : Option ℕ
  pub additional_directories : Option ℕ
  pub compact_instructions : Option ℕ
  pub permission_mode : Option ℕ
  pub mcp_servers : List (ℕ × ℕ)
  pub allowed_paths : Option ℕ

pub data ParsedRequest : Type 0 where
  invalid_json_body invalid_pinned : ParsedRequest
  duplicate_name : ℕ → ParsedRequest
  parsed : SessionRequest → ParsedRequest

module _ (trim : ℕ → ℕ) where
  -- `sessions?.nameExists(…)`: without sessions no name is taken.
  abbrev pub is_name_taken : Option ℕ → Option ℕ → Option SessionManager → Bool
  is_name_taken name tenant none = false
  is_name_taken none tenant (some m) = false
  is_name_taken (some n) tenant (some m) =
      if truthy (some n) then name_exists (trim n) tenant m else false

  abbrev pub checked_name : SessionRequest → Option ℕ → Option SessionManager → ParsedRequest
  checked_name body tenant sessions =
      if is_name_taken body.name tenant sessions
      then duplicate_name (trim (get_or body.name 0))
      else parsed body

  abbrev pub checked_pinned :
      PinnedField → SessionRequest → Option ℕ → Option SessionManager → ParsedRequest
  checked_pinned other_pinned body tenant sessions = invalid_pinned
  checked_pinned _ body tenant sessions = checked_name body tenant sessions

  -- `none` is a body that is no JSON.
  pub parse_session_request :
      Option SessionRequest → Option SessionManager → Option ℕ → ParsedRequest
  parse_session_request none sessions tenant = invalid_json_body
  parse_session_request (some body) sessions tenant =
      checked_pinned body.pinned body tenant sessions

-- `runner`, `runner:{vault}` and `runner:{vault}:mcp` of the credential store.
pub data Service : Type 0 where
  account : Service
  vault_store vault_mcp : ℕ → Service

-- `{ ...base, ...over }`.
pub merge : List (ℕ × ℕ) → List (ℕ × ℕ) → List (ℕ × ℕ)
merge base [] = base
merge base ((key, value) ∷ over) = merge (insert key value base) over

abbrev pub email_of_tenant : Option Tenant → Option ℕ
email_of_tenant none = none
email_of_tenant (some t) = if truthy t.email then t.email else none

-- The email of the tenant, where there are a tenant, a tenant manager and an auth client.
abbrev pub email_for : Bool → Option ℕ → Option TenantManager → Option ℕ
email_for false tenant tenants = none
email_for true none tenants = none
email_for true (some t) none = none
email_for true (some t) (some m) =
    if truthy (some t) then email_of_tenant (Tenants.get t m) else none

-- `fetch` is `AuthClient.fetchCredentials`, which returns `null` whenever anything goes wrong.
module _ (fetch : ℕ → Service → Option (List (ℕ × ℕ))) where
  abbrev pub vault_credentials : ℕ → Option ℕ → List (ℕ × ℕ)
  vault_credentials email none = []
  vault_credentials email (some v) =
      if truthy (some v) then get_or (fetch email (vault_store v)) [] else []

  abbrev pub credentials_of : Option ℕ → Option ℕ → List (ℕ × ℕ)
  credentials_of none vault = []
  credentials_of (some email) vault =
      merge (merge [] (get_or (fetch email account) [])) (vault_credentials email vault)

  pub resolve_credentials : Bool → Option ℕ → Option TenantManager → Option ℕ → List (ℕ × ℕ)
  unfolding merge
  resolve_credentials has_client tenant tenants vault =
      credentials_of (email_for has_client tenant tenants) vault

  abbrev pub servers_found : Option (List (ℕ × ℕ)) → Option (List (ℕ × ℕ))
  servers_found none = none
  servers_found (some []) = none
  servers_found (some (server ∷ servers)) = some (server ∷ servers)

  abbrev pub servers_of : Option ℕ → Option ℕ → Option (List (ℕ × ℕ))
  servers_of (some email) (some v) =
      if truthy (some v) then servers_found (fetch email (vault_mcp v)) else none
  servers_of _ _ = none

  pub resolve_vault_mcp_servers :
      Bool → Option ℕ → Option TenantManager → Option ℕ → Option (List (ℕ × ℕ))
  resolve_vault_mcp_servers has_client tenant tenants vault =
      servers_of (email_for has_client tenant tenants) vault

  abbrev pub with_servers : Option (List (ℕ × ℕ)) → SessionRequest → SessionRequest
  with_servers none body = body
  with_servers (some servers) body = record body { mcp_servers = merge servers body.mcp_servers }

-- The words that `categorizeError` looks for.
pub data Word : Type 0 where
  clone git authentication container container_capital timeout timed_out_text : Word

pub data ErrorCategory : Type 0 where
  clone_failed container_failed timed_out internal : ErrorCategory

-- `includes` tells which words are in the message.
pub categorize_error : (Word → Bool) → ErrorCategory
categorize_error includes =
    if includes clone || (includes git || includes authentication)
    then clone_failed
    else if includes container || includes container_capital
    then container_failed
    else if includes timeout || includes timed_out_text
    then timed_out
    else internal
