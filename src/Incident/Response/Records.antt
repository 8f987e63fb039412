-- ===== src/Incident/Response/Records.antt =====
-- What the incident records say of the pools (frontend/lib/server/incident-actions.ts).
use joint_save.Prelude.{
  ℕ, String, Bool, true, ◌&&◌, Option, none, some, List, [], ◌∷◌, ◌==◌, ==_iff, map, any, ◌≡◌, ◌≤◌,
  ◌<◌, inl, inr, refl, arith, Bool-cases, All, All-weaken, is_some,
}
use joint_save.Prelude.Text.{str_eq}
use joint_save.Incident.Config.{IncidentConfig}
use joint_save.Incident.Decision.{Explanation, IncidentDecision}
use joint_save.Incident.Authorization.{StoredPauseAuthorization}
use joint_save.Incident.Response.Store.{
  PoolRow, ScanSource, Incident, Database, Note, is_paused, pool_row, update_incident,
}
use joint_save.Incident.Response.Steps.{
  Luck, record_incident, may_pause, pause_row, pause_pool, mark_incident_executed,
  write_audit_trail, notify_pool_admin,
}
use joint_save.Incident.Response.Onchain.{
  may_claim, OnchainOutcome, claim_and_submit, attempt_on_chain_pause,
}
use joint_save.Incident.Response.Run.{write_outcome, carry_through}
use joint_save.Incident.Response.Branches.{attempt_on_chain_pause_lem}

-- a pool of this id is paused
abbrev pub pool_paused : String → List PoolRow → Bool
pool_paused i ps = any (λ p. str_eq p.id i && is_paused p.status) ps

-- An incident that the run wrote and marked executed names a paused pool.
abbrev pub IsTruthful : ℕ → List PoolRow → Incident → Type 0
IsTruthful base ps x = base ≤ x.id → x.executed ≡ true → pool_paused x.pool_id ps ≡ true

abbrev pub Recorded : ℕ → Database → Type 0
Recorded base db =
    All (λ x. (x.id < db.next) × IsTruthful base db.pools x) db.incidents × (base ≤ db.next)

paused_stays :
    (i j : String) (why : Explanation) (ps : List PoolRow)
    → pool_paused j ps ≡ true
    → pool_paused j (map (pause_row i why) ps) ≡ true
paused_stays i j why [] h = h
paused_stays i j why (p ∷ ps) h = ground (arith, paused_stays i j why ps)

paused_now :
    (i : String) (why : Explanation) (ps : List PoolRow)
    → any (may_pause i) ps ≡ true
    → pool_paused i (map (pause_row i why) ps) ≡ true
paused_now i why [] h = absurd (ground (arith, h))
paused_now i why (p ∷ ps) h = ground (arith, paused_now i why ps)

module _ (base : ℕ) (l : Luck) (d : IncidentDecision) (c : IncidentConfig) where
  pub record_incident-Recorded :
      (source : ScanSource) (db : Database)
      → Recorded base db
      → Recorded base (record_incident l d source c db).1
  unfolding record_incident
  record_incident-Recorded source db (h, k) = elim (Bool-cases l.records) [
    | inl e ↦ rw (e) (
      (
        (omega arith, λ a b. absurd (ground (arith, b))),
        All-weaken db.incidents (λ x p. (omega (arith, p.0), p.1)) h,
      ),
      omega (arith, k),
    )
    | inr e ↦ rw (e) (h, k)
  ]

  pub pause_pool-Recorded :
      (db : Database) → Recorded base db → Recorded base (pause_pool l d.pool_id d.reason db).1
  unfolding pause_pool
  pause_pool-Recorded db (h, k) = elim (Bool-cases l.pauses) [
    | inl e ↦ rw (e) (
      All-weaken db.incidents
          (λ x p. (p.0, λ a b. paused_stays d.pool_id x.pool_id d.reason db.pools (p.1 a b))) h,
      k,
    )
    | inr e ↦ rw (e) (h, k)
  ]

  pub pause_pool_paused :
      (db : Database)
      → (pause_pool l d.pool_id d.reason db).0 ≡ true
      → pool_paused d.pool_id (pause_pool l d.pool_id d.reason db).1.pools ≡ true
  unfolding pause_pool
  pause_pool_paused db h = elim (Bool-cases l.pauses) [
    | inl e ↦ rw (e) (paused_now d.pool_id d.reason db.pools (ground (arith, h, e)))
    | inr e ↦ absurd (ground (arith, h, e))
  ]

All-pair :
    (P Q : Incident → Type 0) (xs : List Incident) → All P xs → All Q xs → All (λ x. P x × Q x) xs
All-pair P Q [] h k = tt
All-pair P Q (x ∷ xs) (p, h) (q, k) = ((p, q), All-pair P Q xs h k)

update-All :
    (P Q : Incident → Type 0) (i : ℕ) (f : Incident → Incident) (xs : List Incident)
    → ((x : Incident) → x.id ≡ i → P x → Q (f x))
    → ((x : Incident) → P x → Q x)
    → All P xs
    → All Q (update_incident i f xs)
update-All P Q i f [] a b h = tt
update-All P Q i f (x ∷ xs) a b (p, h) = elim (Bool-cases (x.id == i)) [
  | inl e ↦ rw (e) (a x ((==_iff x.id i).0 e) p, update-All P Q i f xs a b h)
  | inr e ↦ rw (e) (b x p, update-All P Q i f xs a b h)
]

-- the incident of number `i` is about this pool
abbrev pub Owned : ℕ → String → Database → Type 0
Owned i pool db = All (λ x. x.id ≡ i → x.pool_id ≡ pool) db.incidents

module _ (base : ℕ) (l : Luck) (d : IncidentDecision) (c : IncidentConfig) where
  pub notify-Recorded :
      (n : Option Note) (db : Database)
      → Recorded base db
      → Recorded base (notify_pool_admin l d c n db)
  unfolding notify_pool_admin
  notify-Recorded n db h =
      elim (Bool-cases (l.finds_admin && (is_some (pool_row d.pool_id db.pools) && l.notifies))) [
        | inl e ↦ rw (e) h
        | inr e ↦ rw (e) h
      ]

  audit-Recorded :
      (i : Option ℕ) (db : Database) → Recorded base db → Recorded base (write_audit_trail l d i db)
  unfolding write_audit_trail
  audit-Recorded i db h = elim (Bool-cases l.audits) [ inl e ↦ rw (e) h | inr e ↦ rw (e) h ]

  claimed-Recorded :
      (a : StoredPauseAuthorization) (i : ℕ) (db : Database)
      → Recorded base db
      → Recorded base (claim_and_submit l a i db).1
  unfolding claim_and_submit
  claimed-Recorded a i db h =
      elim (Bool-cases (l.claims && any (may_claim a.id) db.authorizations)) [
        | inl e ↦ rw (e) h
        | inr e ↦ rw (e) h
      ]

  attempt-Recorded :
      (pool : String) (i : ℕ) (db : Database)
      → Recorded base db
      → Recorded base (attempt_on_chain_pause l pool i db).1
  attempt-Recorded pool i db h = elim (attempt_on_chain_pause_lem l pool i db) [
    | inl e ↦ rw (e) h
    | inr (a, e) ↦ rw (e) (claimed-Recorded a i db h)
  ]

  outcome-Recorded :
      (i : ℕ) (o : OnchainOutcome) (db : Database)
      → Recorded base db
      → Recorded base (write_outcome l i o db)
  unfolding write_outcome
  outcome-Recorded i o db (h, k) = elim (Bool-cases l.updates) [
    | inl e ↦ rw (e) (update-All _ _ i _ db.incidents (λ x same p. p) (λ x p. p) h, k)
    | inr e ↦ rw (e) (h, k)
  ]

  marked-Recorded :
      (i : ℕ) (db : Database)
      → pool_paused d.pool_id db.pools ≡ true
      → Owned i d.pool_id db
      → Recorded base db
      → Recorded base (mark_incident_executed l i db)
  unfolding mark_incident_executed
  marked-Recorded i db pausing owned (h, k) = elim (Bool-cases l.marks) [
    | inl e ↦ rw (e) (
      update-All
          (λ x.
            ((x.id < db.next) × IsTruthful base db.pools x) × (x.id ≡ i → x.pool_id ≡ d.pool_id))
          _ i _ db.incidents (λ x same p. (p.0.0, λ a b. rw (p.1 same) pausing)) (λ x p. p.0)
          (All-pair _ _ db.incidents h owned),
      k,
    )
    | inr e ↦ rw (e) (h, k)
  ]

  pub carry_through-Recorded :
      (i : Option ℕ) (db : Database)
      → pool_paused d.pool_id db.pools ≡ true
      → ((n : ℕ) → i ≡ some n → Owned n d.pool_id db)
      → Recorded base db
      → Recorded base (carry_through l d c i db)
  unfolding carry_through
  carry_through-Recorded none db pausing owned h = notify-Recorded none _ (audit-Recorded none db h)
  carry_through-Recorded (some i) db pausing owned h =
      let marked = mark_incident_executed l i db in
      let audited = write_audit_trail l d (some i) marked in
      let o = attempt_on_chain_pause l d.pool_id i audited in
      notify-Recorded (some o.0.note) _ (
        outcome-Recorded i o.0 o.1 (
          attempt-Recorded d.pool_id i audited
            (audit-Recorded (some i) marked (marked-Recorded i db pausing (owned i refl) h))))
