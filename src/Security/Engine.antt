-- ===== src/Security/Engine.antt =====
-- The rules on pauses, dormant pools, failures and creators, and the engine that runs all eight
-- (frontend/lib/security-rules.ts).
use joint_save.Prelude.{
  ℕ, String, Bool, true, false, not, ◌&&◌, ◌||◌, Option, none, some, List, [], ◌∷◌, ◌+◌, ◌*◌,
  if◌then◌else◌, ltb, leb, or_else, is_some, ◌==◌, length, filter, find, any, map,
}
use Prim.Native.String.{compare}
use text.Mathlib.Text.{is_lt}
use joint_save.Prelude.Text.{str_eq, includes, to_lower_case, template}
use joint_save.Prelude.Search.{contains}
use joint_save.Prelude.Decimal.{to_decimal}
use joint_save.Prelude.Sort.{sort_by}
use joint_save.Security.Types.{
  rule_index, AlertSeverity, info, warning, critical, RuleId, rapid_emergency_withdraw,
  unusual_deposit_spike, admin_key_rotation, mass_member_removal, pool_pause_cascade,
  dormant_pool_activation, failed_transaction_storm, reputation_manipulation, SecurityAlert,
}
use joint_save.Security.Collections.{distinct, present, group_by}
use joint_save.Security.Context.{
  ActivityRecord, PoolStatus, active, completed, paused, PoolRecord, AdminActionRecord, RuleContext,
  hour_ms, pool_pause_cascade_threshold, dormant_pool_days, failed_tx_storm_threshold,
  failed_tx_storm_window_ms, reputation_manipulation_threshold, within, alert,
}
use joint_save.Security.Rules.{
  is_deposit, flattened, detect_rapid_emergency_withdraw, detect_unusual_deposit_spike,
  detect_admin_key_rotation, detect_mass_member_removal,
}

abbrev pub is_pause : AdminActionRecord → Bool
is_pause a = str_eq a.action_type "pause_pool" || str_eq a.action_type "pause"

abbrev pub recent_pauses : RuleContext → List AdminActionRecord
recent_pauses ctx =
    filter (λ a. within ctx.now hour_ms a.created_at) (filter is_pause ctx.admin_actions)

unfoldable pub detect_pool_pause_cascade : RuleContext → Option SecurityAlert
detect_pool_pause_cascade ctx =
    let recent = recent_pauses ctx in
    let pools = distinct (map (λ a. a.pool_id) recent) in
    if ltb (length recent) pool_pause_cascade_threshold
    then none
    else some (
        alert pool_pause_cascade warning
          (template (
            to_decimal (length recent)
            ∷ " pools paused within 1 hour across "
            ∷ to_decimal (length pools)
            ∷ " unique pool(s)"
            ∷ []))
          pools (distinct (map (λ a. a.admin_address) recent)))

abbrev pub is_active : PoolStatus → Bool
is_active active = true
is_active completed = false
is_active paused = false

-- `updated_at < now - 90 days`
abbrev pub is_dormant : RuleContext → PoolRecord → Bool
is_dormant ctx p =
    ltb (p.updated_at + dormant_pool_days * 24 * 60 * 60 * 1000) ctx.now && is_active p.status

abbrev pub is_late_deposit : RuleContext → ActivityRecord → Bool
is_late_deposit ctx a =
    is_deposit a
    && (is_some a.amount && any (λ p. str_eq p.id a.pool_id) (filter (is_dormant ctx) ctx.pools))

unfoldable pub detect_dormant_pool_activation : RuleContext → Option SecurityAlert
detect_dormant_pool_activation ctx =
    let deposits = filter (is_late_deposit ctx) ctx.activities in
    let pools = distinct (map (λ a. a.pool_id) deposits) in
    if ltb (length deposits) 1
    then none
    else some (
        alert dormant_pool_activation info
          (template (
            to_decimal (length pools)
            ∷ " dormant pool(s) (>90 days inactive) received new deposits"
            ∷ []))
          pools (distinct (present (map (λ a. a.user_address) deposits))))

abbrev pub is_failure : ActivityRecord → Bool
is_failure a =
    str_eq a.activity_type "failed_transaction"
    || (str_eq a.activity_type "tx_failed"
        || contains "failed" (to_lower_case (or_else a.description "")))

-- `if (!tx.user_address) continue`
abbrev pub has_wallet : ActivityRecord → Bool
has_wallet a = not (str_eq (or_else a.user_address "") "")

abbrev pub recent_failures : RuleContext → String × List ActivityRecord → List ActivityRecord
recent_failures ctx (wallet, txs) =
    filter (λ t. within ctx.now failed_tx_storm_window_ms t.created_at) txs

unfoldable pub detect_failed_transaction_storm : RuleContext → Option SecurityAlert
detect_failed_transaction_storm ctx =
    let by_wallet =
      group_by (λ a. or_else a.user_address "")
        (filter has_wallet (filter is_failure ctx.activities)) in
    let storms =
      filter (λ g. ltb failed_tx_storm_threshold (length (recent_failures ctx g))) by_wallet in
    if ltb (length storms) 1
    then none
    else some (
        alert failed_transaction_storm warning
          (template (
            to_decimal (length storms)
            ∷ " wallet(s) exceeded "
            ∷ to_decimal failed_tx_storm_threshold
            ∷ " failed transactions in 5 minutes"
            ∷ []))
          (distinct (map (λ a. a.pool_id) (flattened (map (recent_failures ctx) storms))))
          (distinct (map (λ g. g.0) storms)))

-- the order of `.sort()` on texts
abbrev pub text_before : String → String → Bool
text_before a b = is_lt (compare a b)

abbrev pub members_of : RuleContext → PoolRecord → List String
members_of ctx p =
    sort_by text_before
      (map (λ m. m.member_address) (filter (λ m. str_eq m.pool_id p.id) ctx.members))

-- what is left of the first list after each of the others
abbrev pub common : List String → List (List String) → List String
common first [] = first
common first (ms ∷ rest) = common (filter (λ m. includes ms m) first) rest

abbrev pub common_members : RuleContext → List PoolRecord → List String
common_members ctx [] = []
common_members ctx (p ∷ ps) = common (members_of ctx p) (map (members_of ctx) ps)

abbrev pub is_suspicious : RuleContext → String × List PoolRecord → Bool
is_suspicious ctx (creator, pools) =
    leb reputation_manipulation_threshold (length pools)
    && leb 2 (length (common_members ctx pools))

unfoldable pub detect_reputation_manipulation : RuleContext → Option SecurityAlert
detect_reputation_manipulation ctx =
    let suspicious = filter (is_suspicious ctx) (group_by (λ p. p.creator_address) ctx.pools) in
    if ltb (length suspicious) 1
    then none
    else some (
        alert reputation_manipulation warning
          (template (
            to_decimal (length suspicious)
            ∷ " wallet(s) created pools with repeated identical members"
            ∷ []))
          (distinct (map (λ p. p.id) (flattened (map (λ g. g.1) suspicious))))
          (distinct (map (λ g. g.0) suspicious)))

abbrev pub severity_rank : AlertSeverity → ℕ
severity_rank critical = 0
severity_rank warning = 1
severity_rank info = 2

abbrev pub more_severe : SecurityAlert → SecurityAlert → Bool
more_severe a b = ltb (severity_rank a.severity) (severity_rank b.severity)

-- the alerts that were raised, in the order of the rules
abbrev pub raised : List (Option SecurityAlert) → List SecurityAlert
raised [] = []
raised (none ∷ rest) = raised rest
raised (some a ∷ rest) = a ∷ raised rest

abbrev pub detections : RuleContext → List (Option SecurityAlert)
detections ctx =
    detect_rapid_emergency_withdraw ctx
    ∷ detect_unusual_deposit_spike ctx
    ∷ detect_admin_key_rotation ctx
    ∷ detect_mass_member_removal ctx
    ∷ detect_pool_pause_cascade ctx
    ∷ detect_dormant_pool_activation ctx
    ∷ detect_failed_transaction_storm ctx
    ∷ detect_reputation_manipulation ctx
    ∷ []

unfoldable pub run_security_rules : RuleContext → List SecurityAlert
run_security_rules ctx = sort_by more_severe (raised (detections ctx))

pub record SecurityRule : Type 0 where
  pub id : RuleId
  pub name : String
  pub severity : AlertSeverity
  pub description : String

abbrev rule : RuleId → String → AlertSeverity → String → SecurityRule
rule i name severity description = record {
  id = i;
  name = name;
  severity = severity;
  description = description;
}

abbrev pub security_rules : List SecurityRule
security_rules =
    rule rapid_emergency_withdraw "Rapid Emergency Withdraw" critical
      "3+ emergency withdrawals within 1 hour"
    ∷ rule unusual_deposit_spike "Unusual Deposit Spike" warning
        "Single deposit > 10x average deposit amount"
    ∷ rule admin_key_rotation "Admin Key Rotation" info "Admin address changed for a pool"
    ∷ rule mass_member_removal "Mass Member Removal" critical
        "Admin removes > 50% of members within 24 hours"
    ∷ rule pool_pause_cascade "Pool Pause Cascade" warning "> 5 pools paused within 1 hour"
    ∷ rule dormant_pool_activation "Dormant Pool Activation" info
        "Pool inactive 90+ days receives large deposit"
    ∷ rule failed_transaction_storm "Failed Transaction Storm" warning
        "> 10 failed transactions from same wallet in 5 minutes"
    ∷ rule reputation_manipulation "Reputation Manipulation" warning
        "Same wallet creating pools with identical members repeatedly"
    ∷ []

unfoldable pub get_rule_by_id : RuleId → Option SecurityRule
get_rule_by_id i = find (λ r. rule_index r.id == rule_index i) security_rules
