-- ===== src/Incident/Response/Run.antt =====
-- The loop over the decisions (runIncidentResponse of frontend/lib/server/incident-actions.ts).
use joint_save.Prelude.{ℕ, suc, not, Option, none, some, List, [], ◌∷◌, ◌++◌, if◌then◌else◌}
use joint_save.Incident.Config.{IncidentConfig}
use joint_save.Incident.Decision.{IncidentDecision}
use joint_save.Incident.Response.Store.{ScanSource, Database, update_incident}
use joint_save.Incident.Response.Steps.{
  Luck, mark_incident_executed, notify_pool_admin, pause_pool, record_incident, write_audit_trail,
}
use joint_save.Incident.Response.Onchain.{OnchainOutcome, attempt_on_chain_pause}

-- the outcome of the contract call, written to the incident
unfoldable pub write_outcome : Luck → ℕ → OnchainOutcome → Database → Database
write_outcome l i o db =
    if l.updates
    then record db {
      incidents =
          update_incident i (λ x. record x { onchain_status = o.status; onchain_tx_hash = o.hash })
            db.incidents;
    }
    else db

-- what follows once the pool is paused, with and without an incident on record
unfoldable pub carry_through :
    Luck → IncidentDecision → IncidentConfig → Option ℕ → Database → Database
carry_through l d c none db = notify_pool_admin l d c none (write_audit_trail l d none db)
carry_through l d c (some i) db =
    let (o, after) =
      attempt_on_chain_pause l d.pool_id i
        (write_audit_trail l d (some i) (mark_incident_executed l i db)) in
    notify_pool_admin l d c (some o.note) (write_outcome l i o after)

-- the body of the loop, once the incident was recorded, or was not
unfoldable pub act_on : Luck → IncidentDecision → IncidentConfig → Option ℕ → Database → Database
act_on l d c i db =
    if not d.executed
    then notify_pool_admin l d c none db
    else let (changed, after) = pause_pool l d.pool_id d.reason db in
      if changed then carry_through l d c i after else after

unfoldable pub respond_to :
    Luck → IncidentDecision → ScanSource → IncidentConfig → Database → Option ℕ × Database
respond_to l d source c db =
    if not d.would_fire
    then (none, db)
    else let (i, after) = record_incident l d source c db in (i, act_on l d c i after)

abbrev pub id_list : Option ℕ → List ℕ
id_list none = []
id_list (some i) = i ∷ []

-- the loop over the decisions: the ids of the incidents, and the database
unfoldable pub respond_all :
    (ℕ → Luck)
    → ℕ
    → List IncidentDecision
    → ScanSource
    → IncidentConfig
    → Database
    → List ℕ × Database
respond_all luck n [] source c db = ([], db)
respond_all luck n (d ∷ ds) source c db =
    let (i, after) = respond_to (luck n) d source c db in
    let (ids, final) = respond_all luck (suc n) ds source c after in (id_list i ++ ids, final)
