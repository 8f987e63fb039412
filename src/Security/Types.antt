-- ===== src/Security/Types.antt =====
-- Rules and alerts (frontend/lib/security-rules.ts). An alert's life after it is raised (its status
-- and resolution) plays no part in the rules or in the response, and is left out.
use joint_save.Prelude.{ℕ, String, Bool, true, false, List}

pub data AlertSeverity : Type 0 where
  info warning critical : AlertSeverity

pub data RuleId : Type 0 where
  rapid_emergency_withdraw unusual_deposit_spike admin_key_rotation mass_member_removal : RuleId
  pool_pause_cascade dormant_pool_activation failed_transaction_storm : RuleId
  reputation_manipulation : RuleId

pub record SecurityAlert : Type 0 where
  pub rule_id : RuleId
  pub severity : AlertSeverity
  pub description : String
  pub affected_pools : List String
  pub affected_wallets : List String

abbrev pub is_critical : AlertSeverity → Bool
is_critical critical = true
is_critical _ = false

-- `a === b` on rule ids, by their place in the list of rules
abbrev pub rule_index : RuleId → ℕ
rule_index rapid_emergency_withdraw = 0
rule_index unusual_deposit_spike = 1
rule_index admin_key_rotation = 2
rule_index mass_member_removal = 3
rule_index pool_pause_cascade = 4
rule_index dormant_pool_activation = 5
rule_index failed_transaction_storm = 6
rule_index reputation_manipulation = 7
