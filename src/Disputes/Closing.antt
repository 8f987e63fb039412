-- ===== src/Disputes/Closing.antt =====
-- The routes that close disputes: the admin's verdict (frontend/app/api/disputes/[id]/resolve/route.ts)
-- and the cron job (frontend/app/api/disputes/expire/route.ts).
use joint_save.Prelude.{
  ℕ, String, Bool, not, Option, none, some, List, [], ◌∷◌, ◌&&◌, ◌||◌, if◌then◌else◌, ltb, or_else,
}
use joint_save.Prelude.Text.{str_eq, to_lower_case, trim, template}
use joint_save.Disputes.Rules.{DisputeStatus, resolved_upheld, resolved_dismissed, expired}
use joint_save.Disputes.Store.{
  Dispute, Activity, dispute_resolved, Tables, Reply, refused, accepted, is_active, find_dispute,
  has_id, update_where,
}
use joint_save.Disputes.Voting.{read_dispute}
use joint_save.Disputes.Filing.{is_creator}

-- a body that is no JSON has no field
pub record ResolveRequest : Type 0 where
  pub dispute_id : String
  pub admin_address : Option String
  pub outcome : Option String
  pub resolution : Option String

pub record ResolveLuck : Type 0 where
  pub is_limited : Bool
  pub finds_dispute : Bool
  pub finds_pool : Bool
  pub update_fails : Bool
  pub log_fails : Bool

abbrev pub outcome_of : Option String → Option DisputeStatus
outcome_of none = none
outcome_of (some o) =
    if str_eq o "upheld"
    then some resolved_upheld
    else if str_eq o "dismissed"
    then some resolved_dismissed
    else none

abbrev pub admin_of : ResolveRequest → String
admin_of r = to_lower_case (or_else r.admin_address "")

abbrev pub resolution_of : ResolveRequest → String
resolution_of r = trim (or_else r.resolution "")

abbrev pub ruled : DisputeStatus → String → String → ℕ → Dispute → Dispute
ruled st note admin now d = record d {
  status = st;
  resolution = some note;
  resolved_by = some admin;
  resolved_at = some now;
}

abbrev pub log_ruling : Bool → Dispute → DisputeStatus → String → List Activity → List Activity
log_ruling fails d st admin log = if fails then log else dispute_resolved d.pool_id admin st ∷ log

abbrev pub resolve_written :
    Bool → Dispute → DisputeStatus → String → Tables → List Dispute → Reply × Tables
resolve_written log_fails d st admin t ds = elim (find_dispute d.id ds) [
  | none ↦ (refused 500, record t { disputes = ds })
  | some e ↦ (
    accepted 200 (some e),
    record t { disputes = ds; activity = log_ruling log_fails d st admin t.activity },
  )
]

abbrev pub resolve_found :
    ResolveLuck → ResolveRequest → DisputeStatus → ℕ → Tables → Dispute → Reply × Tables
resolve_found l r st now t d =
    if not (l.finds_pool && is_creator d.pool_id (admin_of r) t.pools)
    then (refused 403, t)
    else if not (is_active d.status)
    then (refused 409, t)
    else if l.update_fails
    then (refused 500, t)
    else elim (update_where (has_id d.id) (ruled st (resolution_of r) (admin_of r) now)
        t.disputes) [
          | none ↦ (refused 500, t)
          | some ds ↦ resolve_written l.log_fails d st (admin_of r) t ds
        ]

abbrev pub resolve_as : ResolveLuck → ResolveRequest → ℕ → Tables → DisputeStatus → Reply × Tables
resolve_as l r now t st =
    if str_eq (resolution_of r) ""
    then (refused 422, t)
    else elim (read_dispute l.finds_dispute r.dispute_id t) [
      | none ↦ (refused 404, t)
      | some d ↦ resolve_found l r st now t d
    ]

unfoldable pub resolve_dispute : ResolveLuck → ResolveRequest → ℕ → Tables → Reply × Tables
resolve_dispute l r now t =
    if l.is_limited
    then (refused 429, t)
    else if str_eq r.dispute_id "" || str_eq (admin_of r) ""
    then (refused 400, t)
    else elim (outcome_of r.outcome) [ none ↦ (refused 422, t) | some st ↦ resolve_as l r now t st ]

abbrev pub is_stale : ℕ → Dispute → Bool
is_stale now d = is_active d.status && ltb d.expires_at now

abbrev pub expire : Dispute → Dispute
expire d = record d { status = expired }

-- the secret that is configured, the header that is sent, and whether the update fails
unfoldable pub expire_disputes : Option String → String → Bool → ℕ → Tables → Reply × Tables
expire_disputes none header fails now t = (refused 500, t)
expire_disputes (some secret) header fails now t =
    if str_eq secret ""
    then (refused 500, t)
    else if not (str_eq header (template ("Bearer " ∷ secret ∷ [])))
    then (refused 401, t)
    else if fails
    then (refused 500, t)
    else elim (update_where (is_stale now) expire t.disputes) [
      | none ↦ (refused 500, t)
      | some ds ↦ (accepted 200 none, record t { disputes = ds })
    ]
