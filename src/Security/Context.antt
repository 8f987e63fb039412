-- ===== src/Security/Context.antt =====
-- The rows that the rules read and their thresholds (frontend/lib/security-rules.ts). A time is in
-- milliseconds, and `now - t < w` is `now < t + w`; an amount is a whole number of base units, so that
-- the average is their exact fraction.
use joint_save.Prelude.{ℕ, String, Bool, Option, List, ◌+◌, ◌*◌, ltb}
use joint_save.Security.Types.{AlertSeverity, RuleId, SecurityAlert}

pub record ActivityRecord : Type 0 where
  pub pool_id : String
  pub activity_type : String
  pub user_address : Option String
  pub amount : Option ℕ
  pub description : Option String
  pub created_at : ℕ

pub data PoolStatus : Type 0 where
  active completed paused : PoolStatus

pub record PoolRecord : Type 0 where
  pub id : String
  pub status : PoolStatus
  pub creator_address : String
  pub updated_at : ℕ

pub record MemberRecord : Type 0 where
  pub pool_id : String
  pub member_address : String

pub record AdminActionRecord : Type 0 where
  pub pool_id : String
  pub admin_address : String
  pub action_type : String
  pub target_address : Option String
  pub created_at : ℕ

pub record RuleContext : Type 0 where
  pub activities : List ActivityRecord
  pub pools : List PoolRecord
  pub members : List MemberRecord
  pub admin_actions : List AdminActionRecord
  pub now : ℕ

abbrev pub rapid_emergency_withdraw_threshold : ℕ
rapid_emergency_withdraw_threshold = 3

abbrev pub hour_ms : ℕ
hour_ms = 60 * 60 * 1000

abbrev pub deposit_spike_multiplier : ℕ
deposit_spike_multiplier = 10

abbrev pub mass_member_removal_window_ms : ℕ
mass_member_removal_window_ms = 24 * 60 * 60 * 1000

abbrev pub pool_pause_cascade_threshold : ℕ
pool_pause_cascade_threshold = 5

abbrev pub dormant_pool_days : ℕ
dormant_pool_days = 90

abbrev pub failed_tx_storm_threshold : ℕ
failed_tx_storm_threshold = 10

abbrev pub failed_tx_storm_window_ms : ℕ
failed_tx_storm_window_ms = 5 * 60 * 1000

abbrev pub reputation_manipulation_threshold : ℕ
reputation_manipulation_threshold = 3

abbrev pub within : ℕ → ℕ → ℕ → Bool
within now window t = ltb now (t + window)

abbrev pub alert : RuleId → AlertSeverity → String → List String → List String → SecurityAlert
alert rule severity description pools wallets = record {
  rule_id = rule;
  severity = severity;
  description = description;
  affected_pools = pools;
  affected_wallets = wallets;
}
