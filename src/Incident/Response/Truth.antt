-- ===== src/Incident/Response/Truth.antt =====
-- The records of a run tell the truth about the pools
-- (frontend/lib/server/incident-actions.ts).
use joint_save.Prelude.{
  ℕ, suc, Bool, Option, none, some, List, [], ◌∷◌, ◌≡◌, ◌<◌, inl, inr, refl, arith, Bool-cases, All,
  All-weaken,
}
use joint_save.Security.Types.{SecurityAlert}
use joint_save.Incident.Config.{IncidentConfig}
use joint_save.Incident.Grouping.{group_critical_alerts_by_pool}
use joint_save.Incident.Decision.{IncidentDecision}
use joint_save.Incident.Response.Store.{ScanSource, Database}
use joint_save.Incident.Response.Steps.{Luck, record_incident, pause_pool}
use joint_save.Incident.Response.Run.{act_on, respond_to, respond_all}
use joint_save.Incident.Response.Entry.{decisions_of, run_incident_response, respond_to_scan}
use joint_save.Incident.Response.Branches.{
  act_on_held, act_on_lost, act_on_paused, respond_to_quiet, respond_to_fired,
  run_incident_response_lem,
}
use joint_save.Incident.Response.Records.{
  IsTruthful, Recorded, Owned, record_incident-Recorded, pause_pool-Recorded, pause_pool_paused,
  carry_through-Recorded, notify-Recorded,
}

module _ (base : ℕ) (l : Luck) (d : IncidentDecision) (c : IncidentConfig) where
  -- the incident that was written is the only one of its number
  record_incident-Owned :
      (source : ScanSource) (db : Database)
      → Recorded base db
      → (n : ℕ) → (record_incident l d source c db).0 ≡ some n
      → Owned n d.pool_id (record_incident l d source c db).1
  unfolding record_incident
  record_incident-Owned source db (h, k) n e = elim (Bool-cases l.records) [
    | inl r ↦
        let same : db.next ≡ n = ground (arith, e, r) in
        rw (r)
          (λ x. refl, All-weaken db.incidents (λ x p q. absurd (omega (arith, p.0, q, same))) h)
    | inr r ↦ absurd (ground (arith, e, r))
  ]

  pause_pool-Owned :
      (n : ℕ) (db : Database)
      → Owned n d.pool_id db
      → Owned n d.pool_id (pause_pool l d.pool_id d.reason db).1
  unfolding pause_pool
  pause_pool-Owned n db h = elim (Bool-cases l.pauses) [ inl e ↦ rw (e) h | inr e ↦ rw (e) h ]

  act_on-Recorded :
      (i : Option ℕ) (db : Database)
      → ((n : ℕ) → i ≡ some n → Owned n d.pool_id db)
      → Recorded base db
      → Recorded base (act_on l d c i db)
  act_on-Recorded i db owned h = elim (Bool-cases d.executed) [
    | inl e ↦ elim (Bool-cases (pause_pool l d.pool_id d.reason db).0) [
      | inl f ↦ rw (act_on_paused l d c i db e f) (
          carry_through-Recorded base l d c i _ (pause_pool_paused base l d c db f)
            (λ n q. pause_pool-Owned n db (owned n q)) (pause_pool-Recorded base l d c db h))
      | inr f ↦ rw (act_on_lost l d c i db e f) (pause_pool-Recorded base l d c db h)
    ]
    | inr e ↦ rw (act_on_held l d c i db e) (notify-Recorded base l d c none db h)
  ]

  respond_to-Recorded :
      (source : ScanSource) (db : Database)
      → Recorded base db
      → Recorded base (respond_to l d source c db).1
  respond_to-Recorded source db h = elim (Bool-cases d.would_fire) [
    | inl e ↦
        let (i, recorded) = record_incident l d source c db in
        rw (respond_to_fired l d c source db e) (
          act_on-Recorded i recorded (record_incident-Owned source db h)
            (record_incident-Recorded base l d c source db h))
    | inr e ↦ rw (respond_to_quiet l d c source db e) h
  ]

respond_all-Recorded :
    (base : ℕ) (luck : ℕ → Luck) (n : ℕ) (ds : List IncidentDecision) (source : ScanSource)
    (c : IncidentConfig) (db : Database)
    → Recorded base db
    → Recorded base (respond_all luck n ds source c db).1
unfolding respond_all
respond_all-Recorded base luck n [] source c db h = h
respond_all-Recorded base luck n (d ∷ ds) source c db h =
    respond_all-Recorded base luck (suc n) ds source c (respond_to (luck n) d source c db).1
      (respond_to-Recorded base (luck n) d c source db h)

-- Of the incidents that a run writes, each that is marked executed names a pool that is paused when
-- the run ends, whatever reads and writes fail on the way. The numbers of the incidents on record are
-- below the next one.
pub respond_to_scan-IsTruthful :
    (reads : Bool) (now : ℕ) (luck : ℕ → Luck) (alerts : List SecurityAlert) (source : ScanSource)
    (c : IncidentConfig) (db : Database)
    → All (λ x. x.id < db.next) db.incidents
    → let after = (respond_to_scan reads now luck alerts source c db).1 in
      All (IsTruthful db.next after.pools) after.incidents
unfolding respond_to_scan
respond_to_scan-IsTruthful reads now luck alerts source c db h =
    let groups = group_critical_alerts_by_pool alerts in
    let start : Recorded db.next db =
      (All-weaken db.incidents (λ x p. (p, λ a b. absurd (omega (arith, p, a)))) h, omega arith) in
    let end : Recorded db.next (run_incident_response reads now luck groups source c db).1 =
      elim (run_incident_response_lem reads now luck groups source c db) [
        | inl e ↦ rw (e) start
        | inr e ↦
            rw (e)
              (respond_all-Recorded db.next luck 0 (decisions_of now groups c db) source c db start)
      ] in
    All-weaken _ (λ x p. p.1) end.0
