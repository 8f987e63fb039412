-- ===== src/Incident/Tests.antt =====
-- A scan of three alerts, and the theorems of the circuit breaker at it.
use joint_save.Prelude.{
  ℕ, String, Bool, true, false, Option, none, some, List, [], ◌∷◌, ◌≡◌, ◌≢◌, refl, arith, All, map,
  eq_iff,
}
use joint_save.Prelude.BigInt.{big_int}
use joint_save.Prelude.Sort.{sort_by}
use joint_save.Prelude.Text.{to_lower_case}
use joint_save.Security.Types.{
  rapid_emergency_withdraw, mass_member_removal, pool_pause_cascade, SecurityAlert, critical,
  warning,
}
use joint_save.Incident.Config.{
  IncidentConfig, IncidentEnv, default_incident_config, read_int, load_incident_config,
}
use joint_save.Incident.Grouping.{PoolAlertGroup, group_critical_alerts_by_pool}
use joint_save.Incident.Decision.{
  PoolState, active, decide_auto_pause, decide_incident_response, summarize_decisions,
}
use joint_save.Incident.Scan.{IsJustified, scan_pauses-IsJustified}
use joint_save.Incident.Authorization.{
  StoredPauseAuthorization, Expected, expired, used, rejection_for, select_pause_authorization,
}
use joint_save.Security.Context.{RuleContext}
use joint_save.Security.Engine.{run_security_rules}
use joint_save.Incident.Escalation.{high_threshold_never_pauses}
use joint_save.Incident.Spending.{IsUsable, rejections, IsBest, select_pause_authorization-IsBest}

abbrev alerts : List SecurityAlert
alerts =
    record {
      rule_id = rapid_emergency_withdraw;
      severity = critical;
      description = "withdrawals";
      affected_pools = "p2" ∷ "p1" ∷ "" ∷ [];
      affected_wallets = [];
    }
    ∷ record {
      rule_id = pool_pause_cascade;
      severity = warning;
      description = "pauses";
      affected_pools = "p1" ∷ [];
      affected_wallets = [];
    }
    ∷ record {
      rule_id = mass_member_removal;
      severity = critical;
      description = "removals";
      affected_pools = "p2" ∷ [];
      affected_wallets = [];
    }
    ∷ []

abbrev armed : IncidentConfig
armed = record default_incident_config { dry_run = false }

abbrev pools : List (String × PoolState)
pools =
    ("p1", record { id = "p1"; name = none; status = active })
    ∷ ("p2", record { id = "p2"; name = none; status = active })
    ∷ []

abbrev env : IncidentEnv
env = record {
  critical_threshold = some " 7 ";
  threshold_window_ms = some "12";
  cooldown_window_ms = some "soon";
  max_pauses_per_window = none;
  auto_pause_enabled = some "TRUE";
}

breaker : Unit {0}
unfolding group_critical_alerts_by_pool decide_auto_pause decide_incident_response
    summarize_decisions sort_by load_incident_config read_int big_int select_pause_authorization
    rejection_for to_lower_case
breaker = tt

config_test :
    load_incident_config big_int env ≡ record default_incident_config { critical_threshold = 7 }
unfolding breaker
config_test = refl

group_test :
    map {B = String × ℕ} (λ g. (g.pool_id, g.alert_count)) (group_critical_alerts_by_pool alerts)
    ≡ ("p1", 1) ∷ ("p2", 2) ∷ []
unfolding breaker
group_test = refl

decision_test :
    map {B = String × Bool}
      (λ d. (d.pool_id, d.executed))
      (decide_incident_response (group_critical_alerts_by_pool alerts) pools [] armed)
    ≡ ("p1", false) ∷ ("p2", true) ∷ []
unfolding breaker
decision_test = refl

p2_named : ◌≢◌ {A = String} "p2" ""
p2_named = ground (arith, eq_iff "p2" "")

abbrev group : PoolAlertGroup
group = record {
  pool_id = "p2";
  rule_ids = mass_member_removal ∷ [];
  descriptions = "removals" ∷ "removals" ∷ [];
  alert_count = 2;
  highest_severity = critical;
}

abbrev state : PoolState
state = record { id = "p2"; name = some "Circle"; status = active }

scan_pauses-IsJustified_example :
    All
      (λ d. d.executed ≡ true → IsJustified alerts pools [] armed d)
      (decide_incident_response (group_critical_alerts_by_pool alerts) pools [] armed)
scan_pauses-IsJustified_example = scan_pauses-IsJustified alerts pools [] armed

abbrev signed : String → ℕ → Option String → StoredPauseAuthorization
signed id ledger spent = record {
  id = id;
  contract_address = "C1";
  admin_address = "GADMIN";
  expiration_ledger = ledger;
  used_at = spent;
  revoked_at = none;
}

abbrev stored : List StoredPauseAuthorization
stored =
    signed "a" 900 none ∷ signed "b" 400 none ∷ signed "c" 90 none ∷ signed "d" 300 (some "t") ∷ []

abbrev expected : Expected
expected = record { contract_address = "C1"; admin_address = "gadmin" }

select_test : select_pause_authorization stored 100 expected 20 ≡ record {
  authorization = some (signed "b" 400 none);
  rejected = ("c", expired) ∷ ("d", used) ∷ [];
}
unfolding breaker
select_test = refl

select_pause_authorization-IsBest_example :
    let choice = select_pause_authorization stored 100 expected 20 in
    ((a : StoredPauseAuthorization)
      → choice.authorization ≡ some a
      → IsBest 100 expected 20 stored a)
    × (choice.authorization ≡ none → All (λ b. ¬ IsUsable 100 expected 20 b) stored)
    × (choice.rejected ≡ rejections 100 expected 20 stored)
select_pause_authorization-IsBest_example = select_pause_authorization-IsBest 100 expected 20 stored

-- A wallet empties two pools, with a threshold that no scan reaches.
abbrev emptied : RuleContext
emptied = record {
  activities =
      record {
        pool_id = "p1";
        activity_type = "emergency_withdraw";
        user_address = none;
        amount = none;
        description = none;
        created_at = 5;
      }
      ∷ record {
        pool_id = "p1";
        activity_type = "emergency_withdraw";
        user_address = none;
        amount = none;
        description = none;
        created_at = 6;
      }
      ∷ record {
        pool_id = "p2";
        activity_type = "emergency_withdraw";
        user_address = none;
        amount = none;
        description = none;
        created_at = 7;
      }
      ∷ [];
  pools = [];
  members = [];
  admin_actions = [];
  now = 10;
}

high_threshold_never_pauses_example :
    All
      (λ d. d.executed ≡ false)
      (decide_incident_response
        (group_critical_alerts_by_pool (run_security_rules emptied))
        pools
        []
        (record armed { critical_threshold = 3 }))
high_threshold_never_pauses_example =
    high_threshold_never_pauses emptied pools [] (record armed { critical_threshold = 3 })
      (omega arith)

abbrev one_group : PoolAlertGroup
one_group = record {
  pool_id = "p1";
  rule_ids = [];
  descriptions = [];
  alert_count = 2;
  highest_severity = critical;
}
