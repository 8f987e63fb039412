-- ===== src/Disputes/Moves.antt =====
-- What filing, the admin's verdict and the cron job do to the tables (frontend/app/api/disputes).
use joint_save.Prelude.{
  ℕ, String, Bool, true, false, not, Option, none, some, List, ◌∷◌, ◌&&◌, ◌||◌, ◌≡◌, refl, arith,
  ap, ◌∙◌, if◌then◌else◌, ltb, map, any, Bool-cases, Option-cases, inl, inr, is_some, or_else,
}
use joint_save.Prelude.Text.{str_eq}
use joint_save.Disputes.Rules.{
  DisputeStatus, DisputeType, dispute_type_of, validate_evidence_urls,
  dispute_description_max_length,
}
use joint_save.Disputes.Store.{
  Dispute, Tables, Reply, refused, accepted, is_active, is_paired, is_member, find_dispute, has_id,
  update_row, update_where,
}
use joint_save.Disputes.Voting.{read_dispute}
use joint_save.Disputes.Filing.{
  FileRequest, FileLuck, filer_of, target_of, target_ok, description_of, text_length, has_active,
  filed, insert_dispute, file_checked, file_dispute,
}
use joint_save.Disputes.Closing.{
  ResolveRequest, ResolveLuck, outcome_of, admin_of, resolution_of, ruled, resolve_written,
  resolve_found, resolve_as, resolve_dispute, is_stale, expire, expire_disputes,
}
use joint_save.Disputes.Requests.{find_dispute-id, find_dispute-inj}

-- the filer and the target stay
abbrev pub HasParties : Dispute → Dispute → Type 0
HasParties d e = (e.filer_address ≡ d.filer_address) × (e.target_address ≡ d.target_address)

-- No change; a new row without votes; or rows whose vote is open, with the same ids and counts.
pub data Moved (t : Tables) (o : Reply × Tables) : Type 0 where
  still : o.1.disputes ≡ t.disputes → o.1.votes ≡ t.votes → Moved t o
  added :
      (d : Dispute)
      → find_dispute d.id t.disputes ≡ none
      → d.votes_for ≡ 0
      → d.votes_against ≡ 0
      → o.1.disputes ≡ d ∷ t.disputes
      → o.1.votes ≡ t.votes
      → Moved t o
  revised :
      (p : Dispute → Bool) (f : Dispute → Dispute)
      → ((d : Dispute) → (f d).id ≡ d.id)
      → ((d : Dispute) → HasParties d (f d))
      → ((d : Dispute) → (f d).votes_for ≡ d.votes_for)
      → ((d : Dispute) → (f d).votes_against ≡ d.votes_against)
      → ((i : String) (d : Dispute)
          → find_dispute i t.disputes ≡ some d
          → p d ≡ true
          → is_active d.status ≡ true)
      → o.1.disputes ≡ map (update_row p f) t.disputes
      → o.1.votes ≡ t.votes
      → Moved t o

insert_dispute-Moved :
    (l : FileLuck) (d : Dispute) (t : Tables)
    → d.votes_for ≡ 0
    → d.votes_against ≡ 0
    → Moved t (insert_dispute l d t)
unfolding insert_dispute
insert_dispute-Moved l d t z w =
    elim (Bool-cases (l.insert_fails || is_some (find_dispute d.id t.disputes))) [
      | inl e ↦ rw (insert_dispute, e) (still refl refl)
      | inr e ↦ rw (insert_dispute, e) (added d (no_row e) z w refl refl)
    ]
  where
    no_row :
        (l.insert_fails || is_some (find_dispute d.id t.disputes)) ≡ false
        → find_dispute d.id t.disputes ≡ none
    no_row e = elim (Option-cases (find_dispute d.id t.disputes)) [
      | inl k ↦ k
      | inr (c, k) ↦ absurd (ground (arith, e, k))
    ]

-- a refusal before the rows are touched
guarded :
    (b : Bool) (code : ℕ) (t : Tables) (o : Reply × Tables)
    → Moved t o
    → Moved t (if b then (refused code, t) else o)
guarded true code t o m = still refl refl
guarded false code t o m = m

file_checked-Moved :
    (l : FileLuck) (r : FileRequest) (pool : String) (kind : DisputeType) (now : ℕ) (t : Tables)
    → Moved t (file_checked l r pool kind now t)
file_checked-Moved l r pool kind now t =
    let text = description_of r in
    guarded (str_eq text "" || ltb dispute_description_max_length (text_length text)) 422 t _ (
      guarded (any (λ u. true) (validate_evidence_urls r.evidence_urls).invalid) 422 t _ (
        guarded (not (l.finds_filer && is_member pool (filer_of r) t.members)) 403 t _ (
          guarded (not (target_ok l pool (filer_of r) (target_of r.target_address) t)) 422 t _ (
            guarded (has_active l pool (filer_of r) t) 409 t _
              (insert_dispute-Moved l (filed l r pool kind now) t refl refl)))))

pub file_dispute-Moved :
    (l : FileLuck) (r : FileRequest) (now : ℕ) (t : Tables) → Moved t (file_dispute l r now t)
unfolding file_dispute
file_dispute-Moved l r now t = guarded l.is_limited 429 t _ (guarded _ 400 t _ checked)
  where
    pool : String
    pool = or_else r.pool_id ""

    typed : Option DisputeType → Reply × Tables
    typed k = elim k [ none ↦ (refused 422, t) | some kind ↦ file_checked l r pool kind now t ]

    by_type : (k : Option DisputeType) → Moved t (typed k)
    by_type none = still refl refl
    by_type (some kind) = file_checked-Moved l r pool kind now t

    checked : Moved t (typed (dispute_type_of (or_else r.dispute_type "")))
    checked = by_type (dispute_type_of (or_else r.dispute_type ""))

-- an update of rows that are all open to it, or its refusal by the constraint
updated :
    (p : Dispute → Bool) (f : Dispute → Dispute) (t : Tables)
    → ((d : Dispute) → (f d).id ≡ d.id)
    → ((d : Dispute) → HasParties d (f d))
    → ((d : Dispute) → (f d).votes_for ≡ d.votes_for)
    → ((d : Dispute) → (f d).votes_against ≡ d.votes_against)
    → ((i : String) (d : Dispute)
        → find_dispute i t.disputes ≡ some d
        → p d ≡ true
        → is_active d.status ≡ true)
    → (next : List Dispute → Reply × Tables) → ((ds : List Dispute) → (next ds).1.disputes ≡ ds)
    → ((ds : List Dispute) → (next ds).1.votes ≡ t.votes)
    → Moved t (elim (update_where p f t.disputes) as (λ o. Reply × Tables) [
      | none ↦ (refused 500, t)
      | some ds ↦ next ds
    ])
unfolding update_where
updated p f t ids parties fors againsts live next next_disputes next_votes =
    elim (Bool-cases (any (λ d. p d && not (is_paired (f d))) t.disputes)) [
      | inl e ↦ rw (update_where, e) (still refl refl)
      | inr e ↦
          rw (update_where, e)
            (revised p f ids parties fors againsts live
              (next_disputes (map (update_row p f) t.disputes))
              (next_votes (map (update_row p f) t.disputes)))
    ]

resolve_found-Moved :
    (l : ResolveLuck) (r : ResolveRequest) (st : DisputeStatus) (now : ℕ) (t : Tables) (d : Dispute)
    → find_dispute d.id t.disputes ≡ some d
    → Moved t (resolve_found l r st now t d)
resolve_found-Moved l r st now t d found = guarded _ 403 t _ (active_only (is_active d.status) refl)
  where
    rest : Reply × Tables
    rest =
        if l.update_fails
        then (refused 500, t)
        else elim (update_where (has_id d.id) (ruled st (resolution_of r) (admin_of r) now)
            t.disputes) [
              | none ↦ (refused 500, t)
              | some ds ↦ resolve_written l.log_fails d st (admin_of r) t ds
            ]

    same_row :
        is_active d.status ≡ true
        → (i : String) (e : Dispute) → find_dispute i t.disputes ≡ some e
        → str_eq e.id d.id ≡ true
        → is_active e.status ≡ true
    same_row live i e k same =
        ap (λ c. is_active c.status) (find_dispute-inj i t.disputes d e k found same) ∙ live

    written_rows :
        (ds : List Dispute)
        → ((resolve_written l.log_fails d st (admin_of r) t ds).1.disputes ≡ ds)
          × ((resolve_written l.log_fails d st (admin_of r) t ds).1.votes ≡ t.votes)
    written_rows ds = elim (Option-cases (find_dispute d.id ds)) [
      | inl e ↦ rw (resolve_written, e) (refl, refl)
      | inr (c, e) ↦ rw (resolve_written, e) (refl, refl)
    ]

    active_only :
        (b : Bool) → is_active d.status ≡ b → Moved t (if not b then (refused 409, t) else rest)
    active_only false e = still refl refl
    active_only true e = guarded l.update_fails 500 t _ (
        updated (has_id d.id) (ruled st (resolution_of r) (admin_of r) now) t (λ c. refl)
          (λ c. (refl, refl)) (λ c. refl) (λ c. refl) (same_row e)
          (resolve_written l.log_fails d st (admin_of r) t) (λ ds. (written_rows ds).0)
          (λ ds. (written_rows ds).1))

pub resolve_dispute-Moved :
    (l : ResolveLuck) (r : ResolveRequest) (now : ℕ) (t : Tables)
    → Moved t (resolve_dispute l r now t)
unfolding resolve_dispute
resolve_dispute-Moved l r now t =
    guarded l.is_limited 429 t _ (guarded _ 400 t _ (by_outcome (outcome_of r.outcome)))
  where
    ruled_as : DisputeStatus → Option Dispute → Reply × Tables
    ruled_as st o = elim o [ none ↦ (refused 404, t) | some d ↦ resolve_found l r st now t d ]

    outcomes : Option DisputeStatus → Reply × Tables
    outcomes o = elim o [ none ↦ (refused 422, t) | some st ↦ resolve_as l r now t st ]

    own_row :
        (d : Dispute)
        → find_dispute r.dispute_id t.disputes ≡ some d
        → find_dispute d.id t.disputes ≡ some d
    own_row d k =
        ap (λ i. find_dispute i t.disputes) (find_dispute-id r.dispute_id t.disputes d k) ∙ k

    by_row :
        (st : DisputeStatus) (o : Option Dispute)
        → read_dispute l.finds_dispute r.dispute_id t ≡ o
        → Moved t (ruled_as st o)
    by_row st none e = still refl refl
    by_row st (some d) e = resolve_found-Moved l r st now t d (own_row d (ground (arith, e)))

    by_outcome : (o : Option DisputeStatus) → Moved t (outcomes o)
    by_outcome none = still refl refl
    by_outcome (some st) =
        guarded (str_eq (resolution_of r) "") 422 t
          (ruled_as st (read_dispute l.finds_dispute r.dispute_id t))
          (by_row st (read_dispute l.finds_dispute r.dispute_id t) refl)

pub expire_disputes-Moved :
    (secret : Option String) (header : String) (fails : Bool) (now : ℕ) (t : Tables)
    → Moved t (expire_disputes secret header fails now t)
unfolding expire_disputes
expire_disputes-Moved none header fails now t = still refl refl
expire_disputes-Moved (some secret) header fails now t = guarded _ 500 t _ (
    guarded _ 401 t _ (
      guarded fails 500 t _ (
        updated (is_stale now) expire t (λ d. refl) (λ d. (refl, refl)) (λ d. refl) (λ d. refl)
          (λ i d k h. ground (arith, h)) (λ ds. (accepted 200 none, record t { disputes = ds }))
          (λ ds. refl) (λ ds. refl))))
