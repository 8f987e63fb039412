-- ===== src/Incident/Response/Entry.antt =====
-- What a run reads, and the run from a scan's alerts (frontend/lib/server/incident-actions.ts).
use joint_save.Prelude.{
  ℕ, String, Bool, true, false, ◌&&◌, Option, none, some, List, [], ◌∷◌, ◌+◌, ◌-◌, if◌then◌else◌,
  map, filter, leb,
}
use joint_save.Prelude.Text.{str_eq, includes}
use joint_save.Security.Types.{SecurityAlert}
use joint_save.Incident.Config.{IncidentConfig}
use joint_save.Incident.Grouping.{PoolAlertGroup, group_critical_alerts_by_pool}
use joint_save.Incident.Decision.{
  PoolState, IncidentAction, pause, no_action, IncidentDecision, decide_incident_response,
  IncidentSummary, summarize_decisions,
}
use joint_save.Incident.Response.Store.{PoolRow, ScanSource, Incident, Database}
use joint_save.Incident.Response.Steps.{Luck}
use joint_save.Incident.Response.Run.{respond_all}

-- `loadPoolStates`, as the entries of its map
unfoldable pub load_pool_states : List String → List PoolRow → List (String × PoolState)
load_pool_states ids rows =
    map (λ p. (p.id, record { id = p.id; name = p.name; status = p.status }))
      (filter (λ p. includes ids p.id) rows)

abbrev pub is_pause : IncidentAction → Bool
is_pause pause = true
is_pause no_action = false

abbrev pub counts_as_pause : List String → ℕ → Incident → Bool
counts_as_pause ids since x =
    includes ids x.pool_id && (is_pause x.action && (x.executed && leb since x.created_at))

-- `counts.set(id, (counts.get(id) ?? 0) + 1)`
abbrev pub count_one : String → List (String × ℕ) → List (String × ℕ)
count_one i [] = (i, 1) ∷ []
count_one i ((j, n) ∷ m) = if str_eq j i then (j, n + 1) ∷ m else (j, n) ∷ count_one i m

abbrev pub count_all : List Incident → List (String × ℕ) → List (String × ℕ)
count_all [] m = m
count_all (x ∷ xs) m = count_all xs (count_one x.pool_id m)

unfoldable pub count_recent_auto_pauses : List String → ℕ → List Incident → List (String × ℕ)
count_recent_auto_pauses ids since incidents =
    count_all (filter (counts_as_pause ids since) incidents) []

pub record IncidentResponseResult : Type 0 where
  pub summary : IncidentSummary
  pub incident_ids : List ℕ

-- the decisions of a run; `since` is `now - cooldownWindowMs`
abbrev pub decisions_of :
    ℕ → List PoolAlertGroup → IncidentConfig → Database → List IncidentDecision
decisions_of now groups c db =
    let ids = map (λ g. g.pool_id) groups in
    decide_incident_response groups (load_pool_states ids db.pools)
      (count_recent_auto_pauses ids (now - c.cooldown_window_ms) db.incidents) c

-- With no group the run is over before it reads; `none` where one of the reads throws.
unfoldable pub run_incident_response :
    Bool
    → ℕ
    → (ℕ → Luck)
    → List PoolAlertGroup
    → ScanSource
    → IncidentConfig
    → Database
    → Option IncidentResponseResult × Database
run_incident_response reads now luck [] source c db =
    (some (record { summary = summarize_decisions [] c; incident_ids = [] }), db)
run_incident_response false now luck (g ∷ gs) source c db = (none, db)
run_incident_response true now luck (g ∷ gs) source c db =
    let decisions = decisions_of now (g ∷ gs) c db in
    let (written, final) = respond_all luck 0 decisions source c db in
    (some (record { summary = summarize_decisions decisions c; incident_ids = written }), final)

-- from a scan's alerts
unfoldable pub respond_to_scan :
    Bool
    → ℕ
    → (ℕ → Luck)
    → List SecurityAlert
    → ScanSource
    → IncidentConfig
    → Database
    → Option IncidentResponseResult × Database
respond_to_scan reads now luck alerts source c db =
    run_incident_response reads now luck (group_critical_alerts_by_pool alerts) source c db
