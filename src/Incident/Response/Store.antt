-- ===== src/Incident/Response/Store.antt =====
-- The rows that the breaker reads and writes (frontend/lib/server/incident-actions.ts): the columns
-- that it uses of the tables `pools`, `incidents`, `pause_authorizations`, `pool_activity` and
-- `notifications`, and the ids of the authorizations that were handed to `submitOnChainPause`. A text
-- for people is its template with the values that go into it.
use joint_save.Prelude.{
  ℕ, String, Bool, true, false, Option, none, some, List, [], ◌∷◌, ◌==◌, if◌then◌else◌,
}
use joint_save.Prelude.Text.{str_eq}
use joint_save.Incident.Decision.{
  PlatformStatus, active, completed, paused, IncidentAction, SkipReason, Explanation,
}
use joint_save.Incident.Authorization.{StoredPauseAuthorization, AuthorizationRejection}
use joint_save.Security.Types.{RuleId, AlertSeverity}

pub record PoolRow : Type 0 where
  pub id : String
  pub name : Option String
  pub status : PlatformStatus
  pub pause_reason : Option Explanation
  pub contract_address : Option String
  pub creator_address : String

pub data OnchainStatus : Type 0 where
  not_required pending confirmed failed : OnchainStatus

pub data ScanSource : Type 0 where
  cron admin : ScanSource

pub record Incident : Type 0 where
  pub id : ℕ
  pub created_at : ℕ
  pub scan_source : ScanSource
  pub pool_id : String
  pub rule_ids : List RuleId
  pub severity : AlertSeverity
  pub alert_count : ℕ
  pub reason : Explanation
  pub action : IncidentAction
  pub executed : Bool
  pub dry_run : Bool
  pub skip_reason : Option SkipReason
  pub platform_paused : Bool
  pub onchain_status : OnchainStatus
  pub onchain_tx_hash : Option String

pub record AuthorizationRow : Type 0 where
  pub pool_id : String
  pub stored : StoredPauseAuthorization
  pub used_by_incident : Option ℕ

-- what is said of the contract call
pub data Note : Type 0 where
  no_contract_address rpc_unreachable none_signed claimed_by_another paused_on_chain
        attempt_errored :
      Note
  unusable : List AuthorizationRejection → Note
  because : String → Note

pub record Notification : Type 0 where
  pub pool_id : String
  pub says_dry_run : Bool
  pub says_paused : Bool
  pub reason : Explanation
  pub note : Option Note

-- `next` is the id that the database gives the next incident.
pub record Database : Type 0 where
  pub pools : List PoolRow
  pub incidents : List Incident
  pub next : ℕ
  pub authorizations : List AuthorizationRow
  pub activity : List (String × Explanation × Option ℕ)
  pub notifications : List Notification
  pub submitted : List String

abbrev pub is_active : PlatformStatus → Bool
is_active active = true
is_active completed = false
is_active paused = false

abbrev pub is_paused : PlatformStatus → Bool
is_paused paused = true
is_paused active = false
is_paused completed = false

-- the first row of a pool
abbrev pub pool_row : String → List PoolRow → Option PoolRow
pool_row i [] = none
pool_row i (p ∷ ps) = if str_eq p.id i then some p else pool_row i ps

-- `update … where id = i`
abbrev pub update_incident : ℕ → (Incident → Incident) → List Incident → List Incident
update_incident i f [] = []
update_incident i f (x ∷ xs) = (if x.id == i then f x else x) ∷ update_incident i f xs
