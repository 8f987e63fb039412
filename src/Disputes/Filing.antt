-- ===== src/Disputes/Filing.antt =====
-- The route that files a dispute (frontend/app/api/disputes/route.ts).
use joint_save.Prelude.{
  ℕ, suc, String, Bool, true, false, not, Option, none, some, List, [], ◌∷◌, ◌+◌, ◌*◌, ◌&&◌, ◌||◌,
  if◌then◌else◌, ltb, or_else, is_some, any, filter, take,
}
use joint_save.Prelude.Text.{str_eq, to_lower_case, trim}
use Prim.Native.String as Chars
use joint_save.Disputes.Rules.{
  DisputeType, dispute_type_of, opened, dispute_description_max_length, dispute_max_evidence_urls,
  dispute_expiry_hours, validate_evidence_urls,
}
use joint_save.Disputes.Store.{
  Dispute, Pool, Activity, dispute_filed, Tables, Reply, refused, accepted, is_active, find_dispute,
  is_member,
}

-- the fields of the body that are texts, and the texts among the URLs
pub record FileRequest : Type 0 where
  pub pool_id : Option String
  pub filer_address : Option String
  pub target_address : Option String
  pub dispute_type : Option String
  pub description : Option String
  pub evidence_urls : List String

-- how the rate limit, the body and the calls of the database turn out, and the id that it makes up
pub record FileLuck : Type 0 where
  pub is_limited : Bool
  pub is_json : Bool
  pub finds_filer : Bool
  pub finds_target : Bool
  pub finds_pool : Bool
  pub finds_existing : Bool
  pub insert_fails : Bool
  pub log_fails : Bool
  pub new_id : String

abbrev pub text_length : String → ℕ
text_length Chars.[] = 0
text_length (Chars.◌∷◌ c s) = suc (text_length s)

-- a target that is given and not blank
abbrev pub target_of : Option String → Option String
target_of none = none
target_of (some t) = if str_eq (trim t) "" then none else some (to_lower_case (trim t))

abbrev pub filer_of : FileRequest → String
filer_of r = to_lower_case (or_else r.filer_address "")

abbrev pub description_of : FileRequest → String
description_of r = trim (or_else r.description "")

abbrev pub is_creator : String → String → List Pool → Bool
is_creator pool address [] = false
is_creator pool address (p ∷ ps) =
    if str_eq p.id pool
    then elim p.creator_address [ none ↦ false | some a ↦ str_eq (to_lower_case a) address ]
    else is_creator pool address ps

-- `if (target && target !== filer)`: the target is a member or the admin
abbrev pub target_ok : FileLuck → String → String → Option String → Tables → Bool
target_ok l pool filer none t = true
target_ok l pool filer (some target) t =
    str_eq target filer
    || (l.finds_target && is_member pool target t.members)
    || (l.finds_pool && is_creator pool target t.pools)

-- `maybeSingle`: several rows are an error, which gives no row
abbrev pub maybe_single {ℓ} : {A : Type ℓ} → List A → Option A
maybe_single [] = none
maybe_single (x ∷ []) = some x
maybe_single (x ∷ y ∷ zs) = none

abbrev pub active_of : String → String → List Dispute → List Dispute
active_of pool filer ds =
    filter (λ d. str_eq d.pool_id pool && str_eq d.filer_address filer && is_active d.status) ds

abbrev pub has_active : FileLuck → String → String → Tables → Bool
has_active l pool filer t =
    l.finds_existing && is_some (maybe_single (active_of pool filer t.disputes))

abbrev pub filed : FileLuck → FileRequest → String → DisputeType → ℕ → Dispute
filed l r pool kind now = record {
  id = l.new_id;
  pool_id = pool;
  filer_address = filer_of r;
  target_address = target_of r.target_address;
  dispute_type = kind;
  description = description_of r;
  evidence_urls = take dispute_max_evidence_urls (validate_evidence_urls r.evidence_urls).valid;
  status = opened;
  resolution = none;
  votes_for = 0;
  votes_against = 0;
  resolved_by = none;
  resolved_at = none;
  expires_at = now + dispute_expiry_hours * 60 * 60 * 1000;
}

abbrev pub log_filed : Bool → String → String → List Activity → List Activity
log_filed fails pool filer log = if fails then log else dispute_filed pool filer ∷ log

-- the primary key refuses an id that is there
unfoldable pub insert_dispute : FileLuck → Dispute → Tables → Reply × Tables
insert_dispute l d t =
    if l.insert_fails || is_some (find_dispute d.id t.disputes) then (refused 500, t) else (
      accepted 201 (some d),
      record t {
        disputes = d ∷ t.disputes;
        activity = log_filed l.log_fails d.pool_id d.filer_address t.activity;
      },
    )

abbrev pub file_checked :
    FileLuck → FileRequest → String → DisputeType → ℕ → Tables → Reply × Tables
file_checked l r pool kind now t =
    if str_eq (description_of r) ""
      || ltb dispute_description_max_length (text_length (description_of r))
    then (refused 422, t)
    else if any (λ u. true) (validate_evidence_urls r.evidence_urls).invalid
    then (refused 422, t)
    else if not (l.finds_filer && is_member pool (filer_of r) t.members)
    then (refused 403, t)
    else if not (target_ok l pool (filer_of r) (target_of r.target_address) t)
    then (refused 422, t)
    else if has_active l pool (filer_of r) t
    then (refused 409, t)
    else insert_dispute l (filed l r pool kind now) t

unfoldable pub file_dispute : FileLuck → FileRequest → ℕ → Tables → Reply × Tables
unfolding insert_dispute
file_dispute l r now t =
    let pool = or_else r.pool_id "" in
    if l.is_limited
    then (refused 429, t)
    else if not l.is_json || str_eq pool "" || str_eq (filer_of r) ""
    then (refused 400, t)
    else elim (dispute_type_of (or_else r.dispute_type "")) [
      | none ↦ (refused 422, t)
      | some kind ↦ file_checked l r pool kind now t
    ]
