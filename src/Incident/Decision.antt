-- ===== src/Incident/Decision.antt =====
-- Whether the breaker trips (`decideAutoPause`, `decideIncidentResponse` and `summarizeDecisions` in
-- frontend/lib/incident-response.ts). A human-readable text is an `Explanation`, its template with
-- the values that are put in; a map is an association list.
use joint_save.Prelude.{
  ℕ, String, Bool, true, false, not, Option, none, some, List, [], ◌∷◌, ◌+◌, ◌/◌, if◌then◌else◌,
  ltb, leb, or_else, map, length, filter,
}
use joint_save.Prelude.Text.{str_eq}
use joint_save.Security.Types.{RuleId, AlertSeverity}
use joint_save.Incident.Config.{IncidentConfig}
use joint_save.Incident.Grouping.{PoolAlertGroup}

pub data PlatformStatus : Type 0 where
  active completed paused : PlatformStatus

pub record PoolState : Type 0 where
  pub id : String
  pub name : Option String
  pub status : PlatformStatus

pub data IncidentAction : Type 0 where
  pause no_action : IncidentAction

pub data SkipReason : Type 0 where
  below_threshold already_paused pool_not_active cooldown unknown_pool : SkipReason

pub data Explanation : Type 0 where
  too_few_alerts : ℕ → ℕ → Explanation
  pool_not_found : String → Explanation
  pool_already_paused : Explanation
  pool_has_status : PlatformStatus → Explanation
  paused_recently : ℕ → ℕ → ℕ → Explanation
  auto_paused : ℕ → List RuleId → ℕ → ℕ → Explanation

pub record IncidentDecision : Type 0 where
  pub pool_id : String
  pub action : IncidentAction
  pub would_fire : Bool
  pub executed : Bool
  pub skip_reason : Option SkipReason
  pub reason : Explanation
  pub rule_ids : List RuleId
  pub alert_count : ℕ
  pub severity : AlertSeverity
  pub recent_pauses : ℕ

-- `Math.round(ms / unit)`
abbrev rounded : ℕ → ℕ → ℕ
rounded ms unit = (ms + unit / 2) / unit

abbrev build_reason : PoolAlertGroup → IncidentConfig → Explanation
build_reason g c =
    auto_paused g.alert_count g.rule_ids (rounded c.threshold_window_ms 60_000) c.critical_threshold

abbrev is_below_threshold : SkipReason → Bool
is_below_threshold below_threshold = true
is_below_threshold _ = false

abbrev skip : PoolAlertGroup → ℕ → SkipReason → Explanation → IncidentDecision
skip g recent why reason = record {
  pool_id = g.pool_id;
  action = no_action;
  would_fire = not (is_below_threshold why);
  executed = false;
  skip_reason = some why;
  reason = reason;
  rule_ids = g.rule_ids;
  alert_count = g.alert_count;
  severity = g.highest_severity;
  recent_pauses = recent;
}

abbrev trip : PoolAlertGroup → ℕ → IncidentConfig → IncidentDecision
trip g recent c = record {
  pool_id = g.pool_id;
  action = pause;
  would_fire = true;
  executed = not c.dry_run;
  skip_reason = none;
  reason = build_reason g c;
  rule_ids = g.rule_ids;
  alert_count = g.alert_count;
  severity = g.highest_severity;
  recent_pauses = recent;
}

-- the checks from the pool's status on
decide_by_status : PlatformStatus → PoolAlertGroup → ℕ → IncidentConfig → IncidentDecision
decide_by_status paused g recent c = skip g recent already_paused pool_already_paused
decide_by_status completed g recent c = skip g recent pool_not_active (pool_has_status completed)
decide_by_status active g recent c =
    if leb c.max_pauses_per_window recent
    then skip g recent cooldown
        (paused_recently recent (rounded c.cooldown_window_ms 3_600_000) c.max_pauses_per_window)
    else trip g recent c

unfoldable pub decide_auto_pause :
    PoolAlertGroup → Option PoolState → ℕ → IncidentConfig → IncidentDecision
unfolding decide_by_status
decide_auto_pause g pool recent c =
    if ltb g.alert_count c.critical_threshold
    then skip g recent below_threshold (too_few_alerts g.alert_count c.critical_threshold)
    else elim pool [
      | none ↦ skip g recent unknown_pool (pool_not_found g.pool_id)
      | some p ↦ decide_by_status p.status g recent c
    ]

-- `map.get(key)`
abbrev pub get {ℓ} : {A : Type ℓ} → String → List (String × A) → Option A
get k [] = none
get k ((j, v) ∷ m) = if str_eq j k then some v else get k m

unfoldable pub decide_incident_response :
    List PoolAlertGroup
    → List (String × PoolState)
    → List (String × ℕ)
    → IncidentConfig
    → List IncidentDecision
decide_incident_response groups pools recent c =
    map (λ g. decide_auto_pause g (get g.pool_id pools) (or_else (get g.pool_id recent) 0) c) groups

pub record IncidentSummary : Type 0 where
  pub dry_run : Bool
  pub would_fire : ℕ
  pub paused : ℕ
  pub cooldown_blocked : ℕ
  pub decisions : List IncidentDecision

abbrev is_cooldown : Option SkipReason → Bool
is_cooldown (some cooldown) = true
is_cooldown _ = false

unfoldable pub summarize_decisions : List IncidentDecision → IncidentConfig → IncidentSummary
summarize_decisions ds c = record {
  dry_run = c.dry_run;
  would_fire = length (filter (λ d. d.would_fire) ds);
  paused = length (filter (λ d. d.executed) ds);
  cooldown_blocked = length (filter (λ d. is_cooldown d.skip_reason) ds);
  decisions = ds;
}
