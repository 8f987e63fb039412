-- ===== src/Incident/Response/Branches.antt =====
-- Where a decision's handling may end (frontend/lib/server/incident-actions.ts), as equations.
use joint_save.Prelude.{
  ℕ, String, Bool, true, false, Option, none, some, List, [], ◌∷◌, ◌≡◌, ◌⊎◌, inl, inr, refl, arith,
  Option-cases, if◌then◌else◌,
}
use joint_save.Incident.Config.{IncidentConfig}
use joint_save.Incident.Grouping.{PoolAlertGroup}
use joint_save.Incident.Decision.{IncidentDecision}
use joint_save.Incident.Response.Store.{ScanSource, Database, PoolRow, pool_row}
use joint_save.Incident.Authorization.{
  StoredPauseAuthorization, select_pause_authorization, auth_ledger_safety_margin,
}
use joint_save.Incident.Response.Steps.{
  Luck, LedgerAnswer, ledger_throws, unreachable, at_ledger, record_incident, pause_pool,
  notify_pool_admin,
}
use joint_save.Incident.Response.Onchain.{
  stored_of, contract_of, claim_and_submit, spend_authorization, attempt_on_chain_pause,
}
use joint_save.Incident.Response.Run.{carry_through, act_on, respond_to, respond_all}
use joint_save.Incident.Response.Entry.{decisions_of, run_incident_response}

module _ (l : Luck) (d : IncidentDecision) (c : IncidentConfig) where
  pub act_on_held :
      (i : Option ℕ) (db : Database)
      → d.executed ≡ false
      → act_on l d c i db ≡ notify_pool_admin l d c none db
  unfolding act_on
  act_on_held i db e = ground (arith, e)

  pub act_on_lost :
      (i : Option ℕ) (db : Database)
      → d.executed ≡ true
      → (pause_pool l d.pool_id d.reason db).0 ≡ false
      → act_on l d c i db ≡ (pause_pool l d.pool_id d.reason db).1
  unfolding act_on
  act_on_lost i db e f = ground (arith, e, f)

  pub act_on_paused :
      (i : Option ℕ) (db : Database)
      → d.executed ≡ true
      → (pause_pool l d.pool_id d.reason db).0 ≡ true
      → act_on l d c i db ≡ carry_through l d c i (pause_pool l d.pool_id d.reason db).1
  unfolding act_on
  act_on_paused i db e f = ground (arith, e, f)

  pub respond_to_quiet :
      (source : ScanSource) (db : Database)
      → d.would_fire ≡ false
      → respond_to l d source c db ≡ (none, db)
  unfolding respond_to
  respond_to_quiet source db e = ground (arith, e)

  pub respond_to_fired :
      (source : ScanSource) (db : Database)
      → d.would_fire ≡ true
      → let recorded = record_incident l d source c db in
        respond_to l d source c db ≡ (recorded.0, act_on l d c recorded.0 recorded.1)
  unfolding respond_to
  respond_to_fired source db e = ground (arith, e)

-- A run leaves the database alone, or handles its decisions in turn.
pub run_incident_response_lem :
    (reads : Bool) (now : ℕ) (luck : ℕ → Luck) (groups : List PoolAlertGroup) (source : ScanSource)
    (c : IncidentConfig) (db : Database)
    → let after = (run_incident_response reads now luck groups source c db).1 in
      (after ≡ db) ⊎ (after ≡ (respond_all luck 0 (decisions_of now groups c db) source c db).1)
unfolding run_incident_response
run_incident_response_lem reads now luck [] source c db = inl refl
run_incident_response_lem false now luck (g ∷ gs) source c db = inl refl
run_incident_response_lem true now luck (g ∷ gs) source c db = inr refl

ledger-cases :
    (x : LedgerAnswer) → (x ≡ ledger_throws) ⊎ ((x ≡ unreachable) ⊎ ((n : ℕ) × (x ≡ at_ledger n)))
ledger-cases ledger_throws = inl refl
ledger-cases unreachable = inr (inl refl)
ledger-cases (at_ledger n) = inr (inr (n, refl))

module _ (l : Luck) where
  spend_authorization_lem :
      (p : PoolRow) (contract : String) (n i : ℕ) (db : Database)
      → let after = (spend_authorization l p contract n i db).1 in
        (after ≡ db) ⊎ ((a : StoredPauseAuthorization) × (after ≡ (claim_and_submit l a i db).1))
  unfolding spend_authorization
  spend_authorization_lem p contract n i db =
      let choice =
        select_pause_authorization (stored_of l p.id db) n
          (record { contract_address = contract; admin_address = p.creator_address })
          auth_ledger_safety_margin in
      elim (Option-cases choice.authorization) [
        | inl e ↦ inl (rw (e, spend_authorization) refl)
        | inr (a, e) ↦ inr (a, rw (e, spend_authorization) refl)
      ]

  -- The contract call leaves the database alone, or it claims and submits one authorization.
  pub attempt_on_chain_pause_lem :
      (pool : String) (i : ℕ) (db : Database)
      → let after = (attempt_on_chain_pause l pool i db).1 in
        (after ≡ db) ⊎ ((a : StoredPauseAuthorization) × (after ≡ (claim_and_submit l a i db).1))
  unfolding attempt_on_chain_pause claim_and_submit
  attempt_on_chain_pause_lem pool i db =
      elim (Option-cases (if l.reads_pool then pool_row pool db.pools else none)) [
        | inl e ↦ inl (rw (e, attempt_on_chain_pause) refl)
        | inr (p, e) ↦ elim (Option-cases (contract_of (some p))) [
          | inl f ↦ inl (rw (e, f, attempt_on_chain_pause) refl)
          | inr (contract, f) ↦ elim (ledger-cases l.ledger) [
            | inl g ↦ inl (rw (e, f, g, attempt_on_chain_pause) refl)
            | inr (inl g) ↦ inl (rw (e, f, g, attempt_on_chain_pause) refl)
            | inr (inr (n, g)) ↦
                rw (e, f, g, attempt_on_chain_pause) (spend_authorization_lem p contract n i db)
          ]
        ]
      ]
