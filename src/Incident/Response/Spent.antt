-- ===== src/Incident/Response/Spent.antt =====
-- No authorization is spent twice (frontend/lib/server/incident-actions.ts).
use joint_save.Prelude.{
  ℕ, suc, String, Bool, false, ◌&&◌, Option, none, some, List, [], ◌∷◌, ◌+◌, if◌then◌else◌, map,
  any, count, ◌≡◌, ◌≤◌, ap, arith, eq_iff, Bool-cases, inl, inr,
}
use joint_save.Prelude.Text.{str_eq}
use joint_save.Security.Types.{SecurityAlert}
use joint_save.Incident.Config.{IncidentConfig}
use joint_save.Incident.Decision.{IncidentDecision}
use joint_save.Incident.Authorization.{StoredPauseAuthorization}
use joint_save.Incident.Response.Store.{ScanSource, AuthorizationRow, Note, Database}
use joint_save.Incident.Grouping.{group_critical_alerts_by_pool}
use joint_save.Incident.Response.Branches.{
  act_on_held, act_on_lost, act_on_paused, respond_to_quiet, respond_to_fired,
  run_incident_response_lem, attempt_on_chain_pause_lem,
}
use joint_save.Incident.Response.Steps.{
  Luck, record_incident, pause_pool, mark_incident_executed, write_audit_trail, notify_pool_admin,
}
use joint_save.Incident.Response.Onchain.{
  may_claim, claim_row, OnchainOutcome, claim_and_submit, attempt_on_chain_pause,
}
use joint_save.Incident.Response.Run.{write_outcome, carry_through, act_on, respond_to, respond_all}
use joint_save.Incident.Response.Entry.{decisions_of, respond_to_scan}

-- the authorization can still be claimed
abbrev pub is_claimable : String → Database → Bool
is_claimable h db = any (may_claim h) db.authorizations

-- How often an authorization was submitted, and once more where it can still be.
abbrev pub uses : String → Database → ℕ
uses h db = count (str_eq h) db.submitted + (if is_claimable h db then 1 else 0)

claimed-row :
    (h a time : String) (i : ℕ) (r : AuthorizationRow)
    → may_claim h (claim_row a time i r) ≡ (if str_eq h a then false else may_claim h r)
claimed-row h a time i r = elim (Bool-cases (may_claim a r)) [
  | inl e ↦ rw (e) ground (arith, e, eq_iff r.stored.id a, eq_iff r.stored.id h, eq_iff h a)
  | inr e ↦ rw (e) ground (arith, e, eq_iff r.stored.id a, eq_iff r.stored.id h, eq_iff h a)
]

claimed-any :
    (h a time : String) (i : ℕ) (rows : List AuthorizationRow)
    → any (may_claim h) (map (claim_row a time i) rows)
      ≡ (if str_eq h a then false else any (may_claim h) rows)
claimed-any h a time i [] = ground arith
claimed-any h a time i (r ∷ rows) =
    ground (arith, claimed-row h a time i r, claimed-any h a time i rows)

module _ (h : String) (l : Luck) where
  record_incident-uses :
      (d : IncidentDecision) (source : ScanSource) (c : IncidentConfig) (db : Database)
      → uses h (record_incident l d source c db).1 ≡ uses h db
  unfolding record_incident
  record_incident-uses d source c db = ground arith

  pause_pool-uses :
      (d : IncidentDecision) (db : Database)
      → uses h (pause_pool l d.pool_id d.reason db).1 ≡ uses h db
  unfolding pause_pool
  pause_pool-uses d db = ground arith

  marked-uses : (i : ℕ) (db : Database) → uses h (mark_incident_executed l i db) ≡ uses h db
  unfolding mark_incident_executed
  marked-uses i db = ground arith

  audit-uses :
      (d : IncidentDecision) (i : Option ℕ) (db : Database)
      → uses h (write_audit_trail l d i db) ≡ uses h db
  unfolding write_audit_trail
  audit-uses d i db = ground arith

  notify-uses :
      (d : IncidentDecision) (c : IncidentConfig) (n : Option Note) (db : Database)
      → uses h (notify_pool_admin l d c n db) ≡ uses h db
  unfolding notify_pool_admin
  notify-uses d c n db = ground arith

  outcome-uses :
      (i : ℕ) (o : OnchainOutcome) (db : Database) → uses h (write_outcome l i o db) ≡ uses h db
  unfolding write_outcome
  outcome-uses i o db = ground arith

  claim_and_submit-uses :
      (a : StoredPauseAuthorization) (i : ℕ) (db : Database)
      → uses h (claim_and_submit l a i db).1 ≤ uses h db
  unfolding claim_and_submit
  claim_and_submit-uses a i db =
      elim (Bool-cases (l.claims && any (may_claim a.id) db.authorizations)) [
        | inl e ↦ rw (e, claimed-any) ground (arith, e, eq_iff h a.id)
        | inr e ↦ rw (e) (omega arith)
      ]

  attempt_on_chain_pause-uses :
      (pool : String) (i : ℕ) (db : Database)
      → uses h (attempt_on_chain_pause l pool i db).1 ≤ uses h db
  attempt_on_chain_pause-uses pool i db = elim (attempt_on_chain_pause_lem l pool i db) [
    | inl e ↦ omega (arith, ap (uses h) e)
    | inr (a, e) ↦ omega (arith, ap (uses h) e, claim_and_submit-uses a i db)
  ]

  carry_through-uses :
      (d : IncidentDecision) (c : IncidentConfig) (i : Option ℕ) (db : Database)
      → uses h (carry_through l d c i db) ≤ uses h db
  unfolding carry_through
  carry_through-uses d c none db =
      omega (arith, notify-uses d c none (write_audit_trail l d none db), audit-uses d none db)
  carry_through-uses d c (some i) db =
      let marked = mark_incident_executed l i db in
      let audited = write_audit_trail l d (some i) marked in
      let o = attempt_on_chain_pause l d.pool_id i audited in
      omega (
        arith,
        marked-uses i db,
        audit-uses d (some i) marked,
        attempt_on_chain_pause-uses d.pool_id i audited,
        outcome-uses i o.0 o.1,
        notify-uses d c (some o.0.note) (write_outcome l i o.0 o.1),
      )

  act_on-uses :
      (d : IncidentDecision) (c : IncidentConfig) (i : Option ℕ) (db : Database)
      → uses h (act_on l d c i db) ≤ uses h db
  act_on-uses d c i db = elim (Bool-cases d.executed) [
    | inl e ↦ elim (Bool-cases (pause_pool l d.pool_id d.reason db).0) [
      | inl f ↦ omega (
        arith,
        ap (uses h) (act_on_paused l d c i db e f),
        carry_through-uses d c i (pause_pool l d.pool_id d.reason db).1,
        pause_pool-uses d db,
      )
      | inr f ↦ omega (arith, ap (uses h) (act_on_lost l d c i db e f), pause_pool-uses d db)
    ]
    | inr e ↦ omega (arith, ap (uses h) (act_on_held l d c i db e), notify-uses d c none db)
  ]

  respond_to-uses :
      (d : IncidentDecision) (source : ScanSource) (c : IncidentConfig) (db : Database)
      → uses h (respond_to l d source c db).1 ≤ uses h db
  respond_to-uses d source c db = elim (Bool-cases d.would_fire) [
    | inl e ↦
        let recorded = record_incident l d source c db in
        omega (
          arith,
          ap (λ p. uses h p.1) (respond_to_fired l d c source db e),
          record_incident-uses d source c db,
          act_on-uses d c recorded.0 recorded.1,
        )
    | inr e ↦ omega (arith, ap (λ p. uses h p.1) (respond_to_quiet l d c source db e))
  ]

module _ (h : String) (luck : ℕ → Luck) where
  respond_all-uses :
      (n : ℕ) (ds : List IncidentDecision) (source : ScanSource) (c : IncidentConfig)
      (db : Database)
      → uses h (respond_all luck n ds source c db).1 ≤ uses h db
  unfolding respond_all
  respond_all-uses n [] source c db = omega arith
  respond_all-uses n (d ∷ ds) source c db = omega (
    arith,
    respond_to-uses h (luck n) d source c db,
    respond_all-uses (suc n) ds source c (respond_to (luck n) d source c db).1,
  )

-- A run of the breaker never submits an authorization that it, or anyone before it, has spent:
-- whatever fails, an authorization that can no longer be claimed is not submitted, and one that
-- can be is submitted once at most, and then can no longer be claimed.
pub respond_to_scan-uses :
    (h : String) (reads : Bool) (now : ℕ) (luck : ℕ → Luck) (alerts : List SecurityAlert)
    (source : ScanSource) (c : IncidentConfig) (db : Database)
    → uses h (respond_to_scan reads now luck alerts source c db).1 ≤ uses h db
unfolding respond_to_scan
respond_to_scan-uses h reads now luck alerts source c db =
    let groups = group_critical_alerts_by_pool alerts in
    elim (run_incident_response_lem reads now luck groups source c db) [
      | inl e ↦ omega (arith, ap (uses h) e)
      | inr e ↦ omega (
        arith,
        ap (uses h) e,
        respond_all-uses h luck 0 (decisions_of now groups c db) source c db,
      )
    ]
