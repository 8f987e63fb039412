-- ===== src/Incident/Response/Pauses.antt =====
-- Which pools a run pauses (frontend/lib/server/incident-actions.ts).
use joint_save.Prelude.{
  ℕ, suc, String, Bool, true, ◌&&◌, Option, none, some, List, [], ◌∷◌, map, any, ◌≡◌, ◌⊎◌, ◌∙◌, inl,
  inr, refl, ap, arith, eq_iff, Bool-cases,
}
use mathlib.Core.Path.{subst}
use joint_save.Prelude.Text.{str_eq}
use joint_save.Incident.Config.{IncidentConfig}
use joint_save.Incident.Decision.{PlatformStatus, active, completed, paused, IncidentDecision}
use joint_save.Incident.Authorization.{StoredPauseAuthorization}
use joint_save.Incident.Response.Store.{PoolRow, ScanSource, Database, Note, is_active}
use joint_save.Incident.Response.Steps.{
  Luck, record_incident, may_pause, pause_row, pause_pool, mark_incident_executed,
  write_audit_trail, notify_pool_admin,
}
use joint_save.Incident.Response.Onchain.{OnchainOutcome, claim_and_submit, attempt_on_chain_pause}
use joint_save.Incident.Response.Run.{write_outcome, carry_through, act_on, respond_to, respond_all}
use joint_save.Incident.Response.Branches.{
  act_on_held, act_on_lost, act_on_paused, respond_to_quiet, respond_to_fired,
  attempt_on_chain_pause_lem,
}

-- a decision that is carried out on this pool
abbrev pub executes : String → IncidentDecision → Bool
executes i d = d.executed && str_eq d.pool_id i

-- A row is as it was, or it was active and is paused now, by a decision to do so.
abbrev pub RowEvolved : List IncidentDecision → PoolRow → PoolRow → Type 0
RowEvolved ds p q =
    (q ≡ p)
    ⊎ ((p.status ≡ active) × (q.status ≡ paused) × (q.id ≡ p.id) × (any (executes p.id) ds ≡ true))

abbrev pub Evolved : List IncidentDecision → List PoolRow → List PoolRow → Type 0
Evolved ds [] [] = Unit
Evolved ds [] (q ∷ qs) = ⊥
Evolved ds (p ∷ ps) [] = ⊥
Evolved ds (p ∷ ps) (q ∷ qs) = RowEvolved ds p q × Evolved ds ps qs

pub Evolved-refl : (ds : List IncidentDecision) (ps : List PoolRow) → Evolved ds ps ps
Evolved-refl ds [] = tt
Evolved-refl ds (p ∷ ps) = (inl refl, Evolved-refl ds ps)

row_trans :
    (ds : List IncidentDecision) (p q r : PoolRow)
    → RowEvolved ds p q
    → RowEvolved ds q r
    → RowEvolved ds p r
row_trans ds p q r h (inl e) = rw (e) h
row_trans ds p q r (inl e) (inr k) = subst (λ x. RowEvolved ds x r) e (inr k)
row_trans ds p q r (inr (a, b, c, d)) (inr (a', b', c', d')) = absurd (cc)

pub Evolved-trans :
    (ds : List IncidentDecision) (ps qs rs : List PoolRow)
    → Evolved ds ps qs
    → Evolved ds qs rs
    → Evolved ds ps rs
Evolved-trans ds [] [] rs h k = k
Evolved-trans ds [] (q ∷ qs) rs h k = absurd h
Evolved-trans ds (p ∷ ps) [] rs h k = absurd h
Evolved-trans ds (p ∷ ps) (q ∷ qs) [] h k = absurd k
Evolved-trans ds (p ∷ ps) (q ∷ qs) (r ∷ rs) (h, hs) (k, ks) =
    (row_trans ds p q r h k, Evolved-trans ds ps qs rs hs ks)

row_weaken :
    (xs ys : List IncidentDecision)
    → ((i : String) → any (executes i) xs ≡ true → any (executes i) ys ≡ true)
    → (p q : PoolRow) → RowEvolved xs p q
    → RowEvolved ys p q
row_weaken xs ys f p q (inl e) = inl e
row_weaken xs ys f p q (inr (a, b, c, d)) = inr (a, b, c, f p.id d)

Evolved-weaken :
    (xs ys : List IncidentDecision)
    → ((i : String) → any (executes i) xs ≡ true → any (executes i) ys ≡ true)
    → (ps qs : List PoolRow) → Evolved xs ps qs
    → Evolved ys ps qs
Evolved-weaken xs ys f [] [] h = h
Evolved-weaken xs ys f [] (q ∷ qs) h = absurd h
Evolved-weaken xs ys f (p ∷ ps) [] h = absurd h
Evolved-weaken xs ys f (p ∷ ps) (q ∷ qs) (h, hs) =
    (row_weaken xs ys f p q h, Evolved-weaken xs ys f ps qs hs)

active_iff : (s : PlatformStatus) → is_active s ≡ true → s ≡ active
active_iff active h = refl
active_iff completed h = absurd (ground (arith, h))
active_iff paused h = absurd (ground (arith, h))

pause_row-Evolved :
    (d : IncidentDecision) (p : PoolRow)
    → d.executed ≡ true
    → RowEvolved (d ∷ []) p (pause_row d.pool_id d.reason p)
pause_row-Evolved d p h = elim (Bool-cases (may_pause d.pool_id p)) [
  | inl e ↦ rw (e) (
      inr (
        active_iff p.status (ground (arith, e)),
        refl,
        refl,
        ground (arith, e, h, eq_iff p.id d.pool_id, eq_iff d.pool_id p.id),
      ))
  | inr e ↦ rw (e) (inl refl)
]

pause_rows-Evolved :
    (d : IncidentDecision) (ps : List PoolRow)
    → d.executed ≡ true
    → Evolved (d ∷ []) ps (map (pause_row d.pool_id d.reason) ps)
pause_rows-Evolved d [] h = tt
pause_rows-Evolved d (p ∷ ps) h = (pause_row-Evolved d p h, pause_rows-Evolved d ps h)

module _ (l : Luck) (d : IncidentDecision) (c : IncidentConfig) where
  notify-pools : (n : Option Note) (db : Database) → (notify_pool_admin l d c n db).pools ≡ db.pools
  unfolding notify_pool_admin
  notify-pools n db = ground arith

  audit-pools : (i : Option ℕ) (db : Database) → (write_audit_trail l d i db).pools ≡ db.pools
  unfolding write_audit_trail
  audit-pools i db = ground arith

  marked-pools : (i : ℕ) (db : Database) → (mark_incident_executed l i db).pools ≡ db.pools
  unfolding mark_incident_executed
  marked-pools i db = ground arith

  outcome-pools :
      (i : ℕ) (o : OnchainOutcome) (db : Database) → (write_outcome l i o db).pools ≡ db.pools
  unfolding write_outcome
  outcome-pools i o db = ground arith

  claimed-pools :
      (a : StoredPauseAuthorization) (i : ℕ) (db : Database)
      → (claim_and_submit l a i db).1.pools ≡ db.pools
  unfolding claim_and_submit
  claimed-pools a i db = ground arith

  attempt-pools :
      (pool : String) (i : ℕ) (db : Database)
      → (attempt_on_chain_pause l pool i db).1.pools ≡ db.pools
  attempt-pools pool i db = elim (attempt_on_chain_pause_lem l pool i db) [
    | inl e ↦ ap (λ x. x.pools) e
    | inr (a, e) ↦ ap (λ x. x.pools) e ∙ claimed-pools a i db
  ]

  pub carry_through-pools :
      (i : Option ℕ) (db : Database) → (carry_through l d c i db).pools ≡ db.pools
  unfolding carry_through
  carry_through-pools none db = notify-pools none _ ∙ audit-pools none db
  carry_through-pools (some i) db =
      let audited = write_audit_trail l d (some i) (mark_incident_executed l i db) in
      let o = attempt_on_chain_pause l d.pool_id i audited in
      notify-pools (some o.0.note) _
      ∙ outcome-pools i o.0 o.1
      ∙ attempt-pools d.pool_id i audited
      ∙ audit-pools (some i) _
      ∙ marked-pools i db

  record-pools :
      (source : ScanSource) (db : Database) → (record_incident l d source c db).1.pools ≡ db.pools
  unfolding record_incident
  record-pools source db = ground arith

  pause_pool-Evolved :
      (db : Database)
      → d.executed ≡ true
      → Evolved (d ∷ []) db.pools (pause_pool l d.pool_id d.reason db).1.pools
  unfolding pause_pool
  pause_pool-Evolved db h = elim (Bool-cases l.pauses) [
    | inl e ↦ rw (e) (pause_rows-Evolved d db.pools h)
    | inr e ↦ rw (e) (Evolved-refl (d ∷ []) db.pools)
  ]

  act_on-Evolved :
      (i : Option ℕ) (db : Database) → Evolved (d ∷ []) db.pools (act_on l d c i db).pools
  act_on-Evolved i db = elim (Bool-cases d.executed) [
    | inl e ↦ elim (Bool-cases (pause_pool l d.pool_id d.reason db).0) [
      | inl f ↦ rw (act_on_paused l d c i db e f, carry_through-pools) (pause_pool-Evolved db e)
      | inr f ↦ rw (act_on_lost l d c i db e f) (pause_pool-Evolved db e)
    ]
    | inr e ↦ rw (act_on_held l d c i db e, notify-pools) (Evolved-refl (d ∷ []) db.pools)
  ]

  respond_to-Evolved :
      (source : ScanSource) (db : Database)
      → Evolved (d ∷ []) db.pools (respond_to l d source c db).1.pools
  respond_to-Evolved source db = elim (Bool-cases d.would_fire) [
    | inl e ↦
        let (i, recorded) = record_incident l d source c db in
        rw (respond_to_fired l d c source db e) (
          subst (λ ps. Evolved (d ∷ []) ps (act_on l d c i recorded).pools) (record-pools source db)
            (act_on-Evolved i recorded))
    | inr e ↦ rw (respond_to_quiet l d c source db e) (Evolved-refl (d ∷ []) db.pools)
  ]

pub respond_all-Evolved :
    (luck : ℕ → Luck) (n : ℕ) (ds : List IncidentDecision) (source : ScanSource)
    (c : IncidentConfig) (db : Database)
    → Evolved ds db.pools (respond_all luck n ds source c db).1.pools
unfolding respond_all
respond_all-Evolved luck n [] source c db = Evolved-refl [] db.pools
respond_all-Evolved luck n (d ∷ ds) source c db =
    let after = (respond_to (luck n) d source c db).1 in
    Evolved-trans (d ∷ ds) db.pools after.pools _
      (Evolved-weaken (d ∷ []) (d ∷ ds) (λ i h. ground (arith, h)) _ _
        (respond_to-Evolved (luck n) d c source db))
      (Evolved-weaken ds (d ∷ ds) (λ i h. ground (arith, h)) _ _
        (respond_all-Evolved luck (suc n) ds source c after))
