-- ===== src/Disputes/Voting.antt =====
-- The route that casts a vote (frontend/app/api/disputes/[id]/vote/route.ts), in three parts, between
-- which other requests may run: what it reads and checks, the row that it adds, and the row that it
-- writes from what it read.
use joint_save.Prelude.{
  ℕ, String, Bool, true, false, not, Option, none, some, List, ◌∷◌, ◌+◌, ◌&&◌, ◌||◌, if◌then◌else◌,
  ltb, leb, or_else,
}
use joint_save.Prelude.Text.{str_eq, to_lower_case}
use joint_save.Disputes.Rules.{
  DisputeStatus, opened, voting, resolved_upheld, resolved_dismissed, votes_needed_to_resolve,
  is_dispute_expired, can_vote_on_dispute,
}
use joint_save.Disputes.Store.{
  Dispute, Activity, dispute_resolved, Tables, Reply, refused, accepted, is_active, find_dispute,
  is_member, member_count, has_voted, has_id, update_where,
}

-- the parts of the body that have the right type; a body that is no JSON has none
pub record VoteRequest : Type 0 where
  pub dispute_id : String
  pub voter_address : Option String
  pub vote : Option Bool

-- how the rate limit and the calls of the database turn out; a read that fails gives no row
pub record VoteLuck : Type 0 where
  pub is_limited : Bool
  pub finds_dispute : Bool
  pub finds_member : Bool
  pub insert_fails : Bool
  pub counts_members : Bool
  pub update_fails : Bool
  pub log_fails : Bool

-- what the route knows when it has checked a vote: the row as it was read
pub record Ballot : Type 0 where
  pub dispute : Dispute
  pub voter : String
  pub vote : Bool

pub data Opening : Type 0 where
  turned_away : ℕ → Opening
  admitted : Ballot → Opening

abbrev pub voter_of : VoteRequest → String
voter_of r = to_lower_case (or_else r.voter_address "")

abbrev pub check_voter : VoteLuck → ℕ → Tables → Ballot → Opening
check_voter l now t b =
    if not (is_active b.dispute.status)
    then turned_away 409
    else if is_dispute_expired b.dispute.expires_at now
    then turned_away 409
    else if not (l.finds_member && is_member b.dispute.pool_id b.voter t.members)
    then turned_away 403
    else if not (can_vote_on_dispute b.voter b.dispute.filer_address b.dispute.target_address false)
    then turned_away 403
    else admitted b

abbrev pub read_dispute : Bool → String → Tables → Option Dispute
read_dispute finds i t = if finds then find_dispute i t.disputes else none

abbrev pub check_dispute : VoteLuck → VoteRequest → ℕ → Tables → Bool → Opening
check_dispute l r now t v = elim (read_dispute l.finds_dispute r.dispute_id t) [
  | none ↦ turned_away 404
  | some d ↦ check_voter l now t (record { dispute = d; voter = voter_of r; vote = v })
]

unfoldable pub open_vote : VoteLuck → VoteRequest → ℕ → Tables → Opening
open_vote l r now t = if l.is_limited then turned_away 429 else elim r.vote [
  | none ↦ turned_away 400
  | some v ↦
      if str_eq r.dispute_id "" || str_eq (voter_of r) ""
      then turned_away 400
      else check_dispute l r now t v
]

-- the insertion: the status code of its failure, or the new tables
unfoldable pub insert_vote : VoteLuck → Ballot → Tables → Option ℕ × Tables
insert_vote l b t =
    if l.insert_fails
    then (some 500, t)
    else if has_voted b.dispute.id b.voter t.votes
    then (some 409, t)
    else (
      none,
      record t {
        votes =
            record { dispute_id = b.dispute.id; voter_address = b.voter; vote = b.vote } ∷ t.votes;
      },
    )

abbrev pub for_count : Ballot → ℕ
for_count b = b.dispute.votes_for + (if b.vote then 1 else 0)

abbrev pub against_count : Ballot → ℕ
against_count b = b.dispute.votes_against + (if b.vote then 0 else 1)

abbrev pub verdict : ℕ → Ballot → Option DisputeStatus
verdict needed b =
    if ltb 0 needed && leb needed (for_count b)
    then some resolved_upheld
    else if ltb 0 needed && leb needed (against_count b)
    then some resolved_dismissed
    else none

abbrev pub counted : Ballot → Dispute → Dispute
counted b d = record d { votes_for = for_count b; votes_against = against_count b }

abbrev pub voted : Ballot → ℕ → Option DisputeStatus → Dispute → Dispute
voted b now (some st) d = record (counted b d) {
  status = st;
  resolved_by = some b.voter;
  resolved_at = some now;
}
voted b now none d = record (counted b d) {
  status = (if is_opened b.dispute.status then voting else d.status);
}
  where
    is_opened : DisputeStatus → Bool
    is_opened opened = true
    is_opened _ = false

-- a log that fails is passed over
abbrev pub log_verdict : Bool → Ballot → Option DisputeStatus → List Activity → List Activity
log_verdict fails b none log = log
log_verdict fails b (some st) log =
    if fails then log else dispute_resolved b.dispute.pool_id b.voter st ∷ log

-- the answer is the row that was written
abbrev pub written : Bool → Ballot → Option DisputeStatus → Tables → List Dispute → Reply × Tables
written log_fails b v t ds = elim (find_dispute b.dispute.id ds) [
  | none ↦ (refused 500, record t { disputes = ds })
  | some d ↦ (
    accepted 200 (some d),
    record t { disputes = ds; activity = log_verdict log_fails b v t.activity },
  )
]

abbrev pub needed_votes : VoteLuck → Ballot → Tables → ℕ
needed_votes l b t =
    votes_needed_to_resolve
      (if l.counts_members then member_count b.dispute.pool_id t.members else 0)

unfoldable pub write_vote : VoteLuck → Ballot → ℕ → Tables → Reply × Tables
write_vote l b now t =
    let v = verdict (needed_votes l b t) b in
    if l.update_fails
    then (refused 500, t)
    else elim (update_where (has_id b.dispute.id) (voted b now v) t.disputes) [
      | none ↦ (refused 500, t)
      | some ds ↦ written l.log_fails b v t ds
    ]

abbrev pub after_insert : VoteLuck → Ballot → ℕ → Option ℕ × Tables → Reply × Tables
after_insert l b now (some code, t) = (refused code, t)
after_insert l b now (none, t) = write_vote l b now t

-- a request that nothing comes between
unfoldable pub cast_vote : VoteLuck → VoteRequest → ℕ → Tables → Reply × Tables
cast_vote l r now t = elim (open_vote l r now t) [
  | turned_away code ↦ (refused code, t)
  | admitted b ↦ after_insert l b now (insert_vote l b t)
]
