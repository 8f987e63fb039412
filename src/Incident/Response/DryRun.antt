-- ===== src/Incident/Response/DryRun.antt =====
-- A run in dry-run, and a run's pauses with what justifies them (frontend/lib/server/incident-actions.ts).
use joint_save.Prelude.{
  ◌-◌, ℕ, suc, String, Bool, true, false, Option, none, List, [], ◌∷◌, map, ◌≡◌, ◌∙◌, inl, inr,
  refl, arith, Bool-cases, All,
}
use joint_save.Security.Types.{SecurityAlert}
use joint_save.Incident.Config.{IncidentConfig}
use joint_save.Incident.Grouping.{PoolAlertGroup, group_critical_alerts_by_pool}
use joint_save.Incident.Decision.{
  IncidentDecision, PoolState, decide_auto_pause, decide_incident_response,
}
use joint_save.Incident.Breaker.{decide_auto_pause-fields}
use joint_save.Incident.Scan.{IsJustified, scan_pauses-IsJustified}
use joint_save.Incident.Response.Store.{ScanSource, Database, Note}
use joint_save.Incident.Response.Steps.{Luck, record_incident, notify_pool_admin}
use joint_save.Incident.Response.Run.{respond_to, respond_all}
use joint_save.Incident.Response.Entry.{
  load_pool_states, count_recent_auto_pauses, decisions_of, respond_to_scan,
}
use joint_save.Incident.Response.Branches.{
  act_on_held, respond_to_quiet, respond_to_fired, run_incident_response_lem,
}
use joint_save.Incident.Response.Pauses.{Evolved, Evolved-refl, respond_all-Evolved}

-- no pool and no authorization was touched, and nothing was submitted
pub record HandsOff (s t : Database) : Type 0 where
  pub same_pools : t.pools ≡ s.pools
  pub same_authorizations : t.authorizations ≡ s.authorizations
  pub same_submitted : t.submitted ≡ s.submitted

HandsOff-refl : (s : Database) → HandsOff s s
HandsOff-refl s = record { same_pools = refl; same_authorizations = refl; same_submitted = refl }

HandsOff-trans : (s t u : Database) → HandsOff s t → HandsOff t u → HandsOff s u
HandsOff-trans s t u a b = record {
  same_pools = b.same_pools ∙ a.same_pools;
  same_authorizations = b.same_authorizations ∙ a.same_authorizations;
  same_submitted = b.same_submitted ∙ a.same_submitted;
}

module _ (l : Luck) (d : IncidentDecision) (c : IncidentConfig) where
  notify-HandsOff : (n : Option Note) (db : Database) → HandsOff db (notify_pool_admin l d c n db)
  unfolding notify_pool_admin
  notify-HandsOff n db = record {
    same_pools = ground arith;
    same_authorizations = ground arith;
    same_submitted = ground arith;
  }

  record_incident-HandsOff :
      (source : ScanSource) (db : Database) → HandsOff db (record_incident l d source c db).1
  unfolding record_incident
  record_incident-HandsOff source db = record {
    same_pools = ground arith;
    same_authorizations = ground arith;
    same_submitted = ground arith;
  }

  respond_to-HandsOff :
      (source : ScanSource) (db : Database)
      → d.executed ≡ false
      → HandsOff db (respond_to l d source c db).1
  respond_to-HandsOff source db h = elim (Bool-cases d.would_fire) [
    | inl e ↦
        let (i, recorded) = record_incident l d source c db in
        rw (respond_to_fired l d c source db e, act_on_held l d c i recorded h)
          (HandsOff-trans db recorded _ (record_incident-HandsOff source db)
            (notify-HandsOff none recorded))
    | inr e ↦ rw (respond_to_quiet l d c source db e) (HandsOff-refl db)
  ]

respond_all-HandsOff :
    (luck : ℕ → Luck) (n : ℕ) (ds : List IncidentDecision) (source : ScanSource)
    (c : IncidentConfig) (db : Database)
    → All (λ d. d.executed ≡ false) ds
    → HandsOff db (respond_all luck n ds source c db).1
unfolding respond_all
respond_all-HandsOff luck n [] source c db h = HandsOff-refl db
respond_all-HandsOff luck n (d ∷ ds) source c db (p, h) =
    let after = (respond_to (luck n) d source c db).1 in
    HandsOff-trans db after _ (respond_to-HandsOff (luck n) d c source db p)
      (respond_all-HandsOff luck (suc n) ds source c after h)

dry_decide :
    (g : PoolAlertGroup) (pool : Option PoolState) (n : ℕ) (c : IncidentConfig)
    → c.dry_run ≡ true
    → (decide_auto_pause g pool n c).executed ≡ false
dry_decide g pool n c dry = elim (Bool-cases (decide_auto_pause g pool n c).executed) [
  | inl e ↦
      let (pausing, armed) = (decide_auto_pause-fields g pool n c).0.0 e in
      absurd (ground (arith, armed, dry))
  | inr e ↦ e
]

dry_decisions :
    (groups : List PoolAlertGroup) (pools : List (String × PoolState)) (recent : List (String × ℕ))
    (c : IncidentConfig)
    → c.dry_run ≡ true
    → All (λ d. d.executed ≡ false) (decide_incident_response groups pools recent c)
unfolding decide_incident_response
dry_decisions [] pools recent c dry = tt
dry_decisions (g ∷ gs) pools recent c dry =
    (dry_decide g _ _ c dry, dry_decisions gs pools recent c dry)

-- In dry-run a scan pauses no pool, claims no authorization and submits nothing, whatever its alerts
-- are and whatever succeeds.
pub respond_to_scan-HandsOff :
    (reads : Bool) (now : ℕ) (luck : ℕ → Luck) (alerts : List SecurityAlert) (source : ScanSource)
    (c : IncidentConfig) (db : Database)
    → c.dry_run ≡ true
    → HandsOff db (respond_to_scan reads now luck alerts source c db).1
unfolding respond_to_scan
respond_to_scan-HandsOff reads now luck alerts source c db dry =
    let groups = group_critical_alerts_by_pool alerts in
    elim (run_incident_response_lem reads now luck groups source c db) [
      | inl e ↦ rw (e) (HandsOff-refl db)
      | inr e ↦ rw (e) (
          respond_all-HandsOff luck 0 (decisions_of now groups c db) source c db
            (dry_decisions groups _ _ c dry))
    ]

-- Every pool that a scan pauses was active and is the pool of a decision to pause, and every such
-- decision is justified: the breaker is armed, the scan's critical alerts name the pool as often as
-- the threshold asks, and its auto-pauses that are on record are fewer than the allowance. No other
-- pool is changed.
pub respond_to_scan-Evolved :
    (reads : Bool) (now : ℕ) (luck : ℕ → Luck) (alerts : List SecurityAlert) (source : ScanSource)
    (c : IncidentConfig) (db : Database)
    → let groups = group_critical_alerts_by_pool alerts in
      let ids = map (λ g. g.pool_id) groups in
      let ds = decisions_of now groups c db in
      Evolved ds db.pools (respond_to_scan reads now luck alerts source c db).1.pools
      × All
          (λ d.
            d.executed ≡ true
            → IsJustified alerts
                (load_pool_states ids db.pools)
                (count_recent_auto_pauses ids (now - c.cooldown_window_ms) db.incidents)
                c
                d)
          ds
unfolding respond_to_scan
respond_to_scan-Evolved reads now luck alerts source c db =
    let groups = group_critical_alerts_by_pool alerts in
    let ds = decisions_of now groups c db in
    (
      elim (run_incident_response_lem reads now luck groups source c db) [
        | inl e ↦ rw (e) (Evolved-refl ds db.pools)
        | inr e ↦ rw (e) (respond_all-Evolved luck 0 ds source c db)
      ],
      scan_pauses-IsJustified alerts _ _ c,
    )
