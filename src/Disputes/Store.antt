-- ===== src/Disputes/Store.antt =====
-- The tables `disputes` and `dispute_votes` with their constraints
-- (supabase/migrations/20260824010000_dispute_resolution.sql), the columns used of `pool_members` and
-- `pools`, and what a route answers.
use joint_save.Prelude.{
  ℕ, String, Bool, true, false, not, Option, none, some, List, ◌&&◌, if◌then◌else◌, any, find, map,
  count, is_some,
}
use joint_save.Prelude.Text.{str_eq}
use joint_save.Disputes.Rules.{
  DisputeType, DisputeStatus, opened, voting, resolved_upheld, resolved_dismissed,
}

pub record Dispute : Type 0 where
  pub id : String
  pub pool_id : String
  pub filer_address : String
  pub target_address : Option String
  pub dispute_type : DisputeType
  pub description : String
  pub evidence_urls : List String
  pub status : DisputeStatus
  pub resolution : Option String
  pub votes_for : ℕ
  pub votes_against : ℕ
  pub resolved_by : Option String
  pub resolved_at : Option ℕ
  pub expires_at : ℕ

pub record Vote : Type 0 where
  pub dispute_id : String
  pub voter_address : String
  pub vote : Bool

pub record Member : Type 0 where
  pub pool_id : String
  pub member_address : String

pub record Pool : Type 0 where
  pub id : String
  pub creator_address : Option String

-- the rows that the routes add to `pool_activity`
pub data Activity : Type 0 where
  dispute_filed : String → String → Activity
  dispute_resolved : String → String → DisputeStatus → Activity

pub record Tables : Type 0 where
  pub disputes : List Dispute
  pub votes : List Vote
  pub members : List Member
  pub pools : List Pool
  pub activity : List Activity

-- an answer with its status code, of an error or of a dispute
pub data Reply : Type 0 where
  refused : ℕ → Reply
  accepted : ℕ → Option Dispute → Reply

abbrev pub is_active : DisputeStatus → Bool
is_active opened = true
is_active voting = true
is_active _ = false

abbrev pub is_resolved : DisputeStatus → Bool
is_resolved resolved_upheld = true
is_resolved resolved_dismissed = true
is_resolved _ = false

abbrev pub find_dispute : String → List Dispute → Option Dispute
find_dispute i ds = find (λ d. str_eq d.id i) ds

abbrev pub is_member : String → String → List Member → Bool
is_member pool address ms = any (λ m. str_eq m.pool_id pool && str_eq m.member_address address) ms

abbrev pub member_count : String → List Member → ℕ
member_count pool ms = count (λ m. str_eq m.pool_id pool) ms

-- the constraint `disputes_resolved_fields_pair`
abbrev pub is_paired : Dispute → Bool
is_paired d =
    if is_resolved d.status
    then is_some d.resolved_by && is_some d.resolved_at
    else not (is_some d.resolved_by && is_some d.resolved_at)

-- the primary key of `dispute_votes`
abbrev pub has_voted : String → String → List Vote → Bool
has_voted i voter vs = any (λ v. str_eq v.dispute_id i && str_eq v.voter_address voter) vs

-- `update … where …`, which the constraint may refuse
abbrev pub update_row : (Dispute → Bool) → (Dispute → Dispute) → Dispute → Dispute
update_row p f d = if p d then f d else d

unfoldable pub update_where :
    (Dispute → Bool) → (Dispute → Dispute) → List Dispute → Option (List Dispute)
update_where p f ds =
    if any (λ d. p d && not (is_paired (f d))) ds then none else some (map (update_row p f) ds)

abbrev pub has_id : String → Dispute → Bool
has_id i d = str_eq d.id i

-- how many votes of a side stand in the table
abbrev pub votes_of : String → Bool → List Vote → ℕ
votes_of i side vs = count (λ v. str_eq v.dispute_id i && (if side then v.vote else not v.vote)) vs
