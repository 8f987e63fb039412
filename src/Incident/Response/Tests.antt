-- ===== src/Incident/Response/Tests.antt =====
-- A scan that pauses one pool and spends its authorization, and the theorems on the writes at it.
use joint_save.Prelude.{
  ◌-◌, String, true, false, none, some, List, [], ◌∷◌, ◌≡◌, ◌≤◌, refl, All, map,
}
use joint_save.Prelude.Sort.{sort_by, insert_by}
use joint_save.Prelude.Text.{to_lower_case}
use joint_save.Security.Types.{
  rapid_emergency_withdraw, mass_member_removal, SecurityAlert, critical,
}
use joint_save.Incident.Config.{IncidentConfig, default_incident_config}
use joint_save.Incident.Grouping.{group_critical_alerts_by_pool}
use joint_save.Incident.Decision.{
  active, paused, decide_auto_pause, decide_incident_response, summarize_decisions,
}
use joint_save.Incident.Authorization.{rejection_for, select_pause_authorization}
use joint_save.Incident.Scan.{IsJustified}
use joint_save.Incident.Response.Store.{PoolRow, cron, AuthorizationRow, confirmed, Database}
use joint_save.Incident.Response.Steps.{
  at_ledger, submitted, Luck, record_incident, pause_pool, mark_incident_executed,
  write_audit_trail, notify_pool_admin,
}
use joint_save.Incident.Response.Onchain.{
  candidates_of, claim_and_submit, spend_authorization, attempt_on_chain_pause,
}
use joint_save.Incident.Response.Run.{write_outcome, carry_through, act_on, respond_to, respond_all}
use joint_save.Incident.Response.Entry.{
  load_pool_states, count_recent_auto_pauses, decisions_of, run_incident_response, respond_to_scan,
}
use joint_save.Incident.Response.Spent.{uses, respond_to_scan-uses}
use joint_save.Incident.Response.Pauses.{Evolved}
use joint_save.Incident.Response.DryRun.{
  HandsOff, respond_to_scan-HandsOff, respond_to_scan-Evolved,
}
use joint_save.Incident.Response.Truth.{respond_to_scan-IsTruthful}
use joint_save.Incident.Response.Records.{IsTruthful}

responses : Unit {0}
unfolding group_critical_alerts_by_pool decide_auto_pause decide_incident_response
    summarize_decisions sort_by insert_by select_pause_authorization rejection_for to_lower_case
    record_incident pause_pool mark_incident_executed write_audit_trail candidates_of
    claim_and_submit spend_authorization attempt_on_chain_pause notify_pool_admin write_outcome
    carry_through act_on respond_to respond_all load_pool_states count_recent_auto_pauses
    run_incident_response respond_to_scan
responses = tt

abbrev attack : List SecurityAlert
attack =
    record {
      rule_id = rapid_emergency_withdraw;
      severity = critical;
      description = "withdrawals";
      affected_pools = "p1" ∷ "p2" ∷ [];
      affected_wallets = [];
    }
    ∷ record {
      rule_id = mass_member_removal;
      severity = critical;
      description = "removals";
      affected_pools = "p2" ∷ [];
      affected_wallets = [];
    }
    ∷ []

abbrev armed : IncidentConfig
armed = record default_incident_config { dry_run = false }

abbrev pool : String → PoolRow
pool i = record {
  id = i;
  name = some "savers";
  status = active;
  pause_reason = none;
  contract_address = some "C1";
  creator_address = "GA";
}

abbrev authorization : AuthorizationRow
authorization = record {
  pool_id = "p2";
  stored = record {
    id = "a1";
    contract_address = "C1";
    admin_address = "ga";
    expiration_ledger = 500;
    used_at = none;
    revoked_at = none;
  };
  used_by_incident = none;
}

abbrev before : Database
before = record {
  pools = pool "p1" ∷ pool "p2" ∷ [];
  incidents = [];
  next = 7;
  authorizations = authorization ∷ [];
  activity = [];
  notifications = [];
  submitted = [];
}

abbrev good_luck : Luck
good_luck = record {
  now = 1000;
  now_text = "now";
  records = true;
  pauses = true;
  marks = true;
  audits = true;
  reads_pool = true;
  reads_authorizations = true;
  ledger = at_ledger 100;
  claims = true;
  submission = submitted "h";
  updates = true;
  finds_admin = true;
  notifies = true;
}

pause_test :
    let after = (respond_to_scan true 1000 (λ n. good_luck) attack cron armed before).1 in
    (map (λ p. p.status) after.pools ≡ active ∷ paused ∷ [])
    × (map (λ x. x.executed) after.incidents ≡ true ∷ [])
    × (map (λ x. x.onchain_status) after.incidents ≡ confirmed ∷ [])
    × (after.submitted ≡ "a1" ∷ [])
unfolding responses
pause_test = (refl, refl, refl, refl)

-- The incident cannot be recorded, and the pool is paused all the same.
unrecorded_test :
    let after =
      (respond_to_scan true 1000
        (λ n. record good_luck { records = false })
        attack
        cron
        armed
        before).1 in
    (map (λ p. p.status) after.pools ≡ active ∷ paused ∷ []) × (after.incidents ≡ [])
unfolding responses
unrecorded_test = (refl, refl)

respond_to_scan-uses_example :
    uses "a1" (respond_to_scan true 1000 (λ n. good_luck) attack cron armed before).1
    ≤ uses "a1" before
respond_to_scan-uses_example =
    respond_to_scan-uses "a1" true 1000 (λ n. good_luck) attack cron armed before

respond_to_scan-HandsOff_example :
    HandsOff before
      (respond_to_scan true 1000 (λ n. good_luck) attack cron default_incident_config before).1
respond_to_scan-HandsOff_example =
    respond_to_scan-HandsOff true 1000 (λ n. good_luck) attack cron default_incident_config before
      refl

respond_to_scan-Evolved_example :
    let groups = group_critical_alerts_by_pool attack in
    let ids = map (λ g. g.pool_id) groups in
    let ds = decisions_of 1000 groups armed before in
    Evolved ds before.pools
      (respond_to_scan true 1000 (λ n. good_luck) attack cron armed before).1.pools
    × All
        (λ d.
          d.executed ≡ true
          → IsJustified attack
              (load_pool_states ids before.pools)
              (count_recent_auto_pauses ids (1000 - armed.cooldown_window_ms) before.incidents)
              armed
              d)
        ds
respond_to_scan-Evolved_example =
    respond_to_scan-Evolved true 1000 (λ n. good_luck) attack cron armed before

respond_to_scan-IsTruthful_example :
    let after = (respond_to_scan true 1000 (λ n. good_luck) attack cron armed before).1 in
    All (IsTruthful 7 after.pools) after.incidents
respond_to_scan-IsTruthful_example =
    respond_to_scan-IsTruthful true 1000 (λ n. good_luck) attack cron armed before tt
