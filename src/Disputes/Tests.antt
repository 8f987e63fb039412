-- ===== src/Disputes/Tests.antt =====
-- A dispute in a pool of three, its votes, and the theorems at them.
use joint_save.Prelude.{
  ℕ, String, Bool, true, false, none, some, List, [], ◌∷◌, ◌≡◌, refl, map, arith,
}
use joint_save.Prelude.Text.{to_lower_case, trim}
use joint_save.Disputes.Rules.{
  other, voting, resolved_upheld, resolved_dismissed, expired, is_url, validate_evidence_urls,
  can_vote_on_dispute, is_over, days_hours, hours_minutes, format_dispute_time_remaining,
  votes_needed_to_resolve,
}
use joint_save.Disputes.Store.{Dispute, Member, Tables, refused, find_dispute, update_where}
use joint_save.Disputes.Voting.{
  VoteRequest, VoteLuck, Ballot, voted, open_vote, insert_vote, write_vote, cast_vote,
}
use joint_save.Disputes.Filing.{FileRequest, FileLuck, insert_dispute, file_dispute}
use joint_save.Disputes.Closing.{ResolveRequest, ResolveLuck, resolve_dispute, expire_disputes}
use joint_save.Disputes.Requests.{Request, votes, files, resolves, expires, serve, serve_all}
use joint_save.Disputes.Rows.{IsTallied}
use joint_save.Disputes.Tally.{serve_all-IsTallied}
use joint_save.Disputes.Closed.{serve_all-closed}
use joint_save.Disputes.Ballots.{AreFair, serve_all-AreFair}
use joint_save.Disputes.Race.{verdict_overturned}

disputes : Unit {0}
unfolding to_lower_case trim is_url validate_evidence_urls can_vote_on_dispute update_where
    open_vote insert_vote write_vote cast_vote insert_dispute file_dispute resolve_dispute
    expire_disputes serve serve_all
disputes = tt

abbrev lucky : VoteLuck
lucky = record {
  is_limited = false;
  finds_dispute = true;
  finds_member = true;
  insert_fails = false;
  counts_members = true;
  update_fails = false;
  log_fails = false;
}

abbrev filing_luck : FileLuck
filing_luck = record {
  is_limited = false;
  is_json = true;
  finds_filer = true;
  finds_target = true;
  finds_pool = true;
  finds_existing = true;
  insert_fails = false;
  log_fails = false;
  new_id = "d";
}

abbrev complaint : FileRequest
complaint = record {
  pool_id = some "p";
  filer_address = some "GF";
  target_address = some " GT ";
  dispute_type = some "other";
  description = some " late ";
  evidence_urls = "https://x.org" ∷ [];
}

abbrev member : String → Member
member a = record { pool_id = "p"; member_address = a }

abbrev pool_of_three : Tables
pool_of_three = record {
  disputes = [];
  votes = [];
  members = member "gf" ∷ member "gt" ∷ member "ga" ∷ [];
  pools = record { id = "p"; creator_address = some "GB" } ∷ [];
  activity = [];
}

abbrev ballot_of : String → Bool → VoteRequest
ballot_of a v = record { dispute_id = "d"; voter_address = some a; vote = some v }

abbrev filing : Request
filing = files filing_luck complaint

abbrev ruling : ResolveRequest
ruling = record {
  dispute_id = "d";
  admin_address = some "gb";
  outcome = some "upheld";
  resolution = some "so it is";
}

abbrev ruling_luck : ResolveLuck
ruling_luck = record {
  is_limited = false;
  finds_dispute = true;
  finds_pool = true;
  update_fails = false;
  log_fails = false;
}

test_rules :
    (votes_needed_to_resolve 3 ≡ 2)
    × (can_vote_on_dispute "GA" "gf" (some "gt") false ≡ true)
    × (can_vote_on_dispute "GT" "gf" (some "gt") false ≡ false)
    × (is_url "HTTPS://x.org/a" ≡ true)
    × (is_url "ftp://x.org" ≡ false)
    × (is_url "http://" ≡ false)
    × ((validate_evidence_urls (" " ∷ " no " ∷ "http://a" ∷ [])).invalid ≡ "no" ∷ [])
unfolding disputes
test_rules = (refl, refl, refl, refl, refl, refl, refl)

test_countdown :
    (format_dispute_time_remaining 5 5 ≡ is_over)
    × (format_dispute_time_remaining 187_200_000 0 ≡ days_hours 2 4)
    × (format_dispute_time_remaining 18_180_000 0 ≡ hours_minutes 5 3)
test_countdown = (refl, refl, refl)

abbrev after_filing : Tables
after_filing = serve_all ((filing, 0) ∷ []) pool_of_three

-- one vote of three does not decide, a second one of the same voter is refused, the admin decides
abbrev day : List (Request × ℕ)
day =
    (filing, 0)
    ∷ (votes lucky (ballot_of "GA" true), 1)
    ∷ (votes lucky (ballot_of "ga" false), 2)
    ∷ (resolves ruling_luck ruling, 3)
    ∷ (expires (some "s") "Bearer s" false, 999_999_999)
    ∷ []

test_day :
    (map (λ d. d.status) (serve_all day pool_of_three).disputes ≡ resolved_upheld ∷ [])
    × (map (λ d. d.votes_for) (serve_all day pool_of_three).disputes ≡ 1 ∷ [])
    × ((cast_vote lucky (ballot_of "gf" true) 1 after_filing).0 ≡ refused 403)
    × ((cast_vote lucky (ballot_of "gz" true) 1 after_filing).0 ≡ refused 403)
    × ((file_dispute filing_luck complaint 1 after_filing).0 ≡ refused 409)
unfolding disputes
test_day = (refl, refl, refl, refl, refl)

no_votes : IsTallied [] []
no_votes = record {
  for_side = λ i d k. absurd (ground (arith, k));
  against_side = λ i d k. absurd (ground (arith, k));
  unknown = λ i side k. refl;
}

nobody : AreFair [] []
nobody = record { once = λ i voter. omega arith; allowed = tt }

serve_all-IsTallied_example :
    IsTallied (serve_all day pool_of_three).disputes (serve_all day pool_of_three).votes
unfolding disputes
serve_all-IsTallied_example =
    serve_all-IsTallied day pool_of_three (refl, (refl, (refl, (refl, (refl, tt))))) no_votes

serve_all-AreFair_example :
    AreFair (serve_all day pool_of_three).disputes (serve_all day pool_of_three).votes
serve_all-AreFair_example = serve_all-AreFair day pool_of_three nobody

abbrev open_row : Dispute
open_row = record {
  id = "d";
  pool_id = "p";
  filer_address = "gf";
  target_address = some "gt";
  dispute_type = other;
  description = "late";
  evidence_urls = [];
  status = voting;
  resolution = none;
  votes_for = 1;
  votes_against = 1;
  resolved_by = none;
  resolved_at = none;
  expires_at = 99;
}

abbrev closed_row : Dispute
closed_row = record open_row { status = expired }

abbrev with_row : Dispute → Tables
with_row d = record pool_of_three { disputes = d ∷ [] }

serve_all-closed_example :
    find_dispute "d" (serve_all day (with_row closed_row)).disputes ≡ some closed_row
serve_all-closed_example = serve_all-closed day (with_row closed_row) "d" closed_row refl refl

abbrev ballot : String → Bool → Ballot
ballot a v = record { dispute = open_row; voter = a; vote = v }

verdict_overturned_example :
    (find_dispute "d" (write_vote lucky (ballot "ga" true) 5 (with_row open_row)).1.disputes
      ≡ some (voted (ballot "ga" true) 5 (some resolved_upheld) open_row))
    × (find_dispute "d"
          (write_vote lucky
            (ballot "gb" false)
            5
            (write_vote lucky (ballot "ga" true) 5 (with_row open_row)).1).1.disputes
        ≡ some (record (voted (ballot "gb" false) 5 (some resolved_dismissed) open_row) {
          votes_for = 1;
        }))
verdict_overturned_example =
    verdict_overturned lucky (ballot "ga" true) (ballot "gb" false) 5 (with_row open_row) open_row
      refl refl refl refl refl refl refl
