-- ===== src/Disputes/Ballots.antt =====
-- Who votes on a dispute (frontend/app/api/disputes/[id]/vote/route.ts).
use joint_save.Prelude.{
  ℕ, String, Bool, true, false, Option, none, some, List, [], ◌∷◌, ◌&&◌, ◌≡◌, ◌≤◌, refl, arith, sym,
  ap, ◌∙◌, if◌then◌else◌, map, count, All, All-weaken, Bool-cases, inl, inr, eq_iff,
}
use joint_save.Prelude.Text.{str_eq}
use joint_save.Disputes.Rules.{DisputeStatus, can_vote_on_dispute}
use joint_save.Disputes.Store.{Dispute, Vote, Tables, find_dispute, has_id, has_voted, update_row}
use joint_save.Disputes.Voting.{Ballot, voted}
use joint_save.Disputes.Requests.{
  Request, serve_all, with_vote, Admitted, find_dispute-map, map_found, voted-id,
}
use joint_save.Disputes.Moves.{HasParties}
use joint_save.Disputes.Served.{IsKept, any-IsServed, serve_all_kept}
use joint_save.Disputes.Closed.{below_new}

-- how often an address has voted on a dispute
abbrev pub times_voted : String → String → List Vote → ℕ
times_voted i voter vs = count (λ v. str_eq v.dispute_id i && str_eq v.voter_address voter) vs

-- the dispute of a vote is there, and the voter may vote on it
pub record IsAllowed (ds : List Dispute) (v : Vote) : Type 0 where
  pub dispute : Dispute
  pub found : find_dispute v.dispute_id ds ≡ some dispute
  pub allowed :
      can_vote_on_dispute v.voter_address dispute.filer_address dispute.target_address false ≡ true

pub record AreFair (ds : List Dispute) (vs : List Vote) : Type 0 where
  pub once : (i voter : String) → times_voted i voter vs ≤ 1
  pub allowed : All (IsAllowed ds) vs

none_yet :
    (i voter : String) (vs : List Vote) → has_voted i voter vs ≡ false → times_voted i voter vs ≡ 0
none_yet i voter [] h = refl
none_yet i voter (v ∷ vs) h = ground (arith, h, none_yet i voter vs)

stored-AreFair :
    (t : Tables) (b : Ballot)
    → Admitted t b
    → has_voted b.dispute.id b.voter t.votes ≡ false
    → AreFair t.disputes t.votes
    → AreFair t.disputes (with_vote b t).votes
stored-AreFair t b a first v = record {
  once = λ i voter. one i voter (v.once i voter);
  allowed = (record { dispute = b.dispute; found = a.found; allowed = a.allowed }, v.allowed);
}
  where
    not_yet :
        (i voter : String)
        → str_eq b.dispute.id i ≡ true
        → str_eq b.voter voter ≡ true
        → has_voted i voter t.votes ≡ false
    not_yet i voter p q =
        ap (λ j. has_voted j voter t.votes) (sym ((eq_iff b.dispute.id i).0 p))
        ∙ ap (λ w. has_voted b.dispute.id w t.votes) (sym ((eq_iff b.voter voter).0 q))
        ∙ first

    one :
        (i voter : String)
        → times_voted i voter t.votes ≤ 1
        → times_voted i voter (with_vote b t).votes ≤ 1
    one i voter old = elim (Bool-cases (str_eq b.dispute.id i && str_eq b.voter voter)) [
      | inl same ↦ ground (
        arith,
        same,
        none_yet i voter t.votes (not_yet i voter (ground (arith, same)) (ground (arith, same))),
      )
      | inr other ↦ ground (arith, other, old)
    ]

revised-AreFair :
    (p : Dispute → Bool) (f : Dispute → Dispute) (ds : List Dispute) (vs : List Vote)
    → ((d : Dispute) → (f d).id ≡ d.id)
    → ((d : Dispute) → HasParties d (f d))
    → AreFair ds vs
    → AreFair (map (update_row p f) ds) vs
revised-AreFair p f ds vs ids parties v = record {
  once = v.once;
  allowed =
      All-weaken vs
        (λ w k. record {
          dispute = update_row p f k.dispute;
          found =
              find_dispute-map w.dispute_id p f ds ids ∙ ap (map_found (update_row p f)) k.found;
          allowed = same_rights w k.dispute (p k.dispute) ∙ k.allowed;
        })
        v.allowed;
}
  where
    same_rights :
        (w : Vote) (d : Dispute) (b : Bool)
        → can_vote_on_dispute w.voter_address
            (if◌then◌else◌ {A = Dispute} b (f d) d).filer_address
            (if◌then◌else◌ {A = Dispute} b (f d) d).target_address
            false
          ≡ can_vote_on_dispute w.voter_address d.filer_address d.target_address false
    same_rights w d true =
        ap (λ a. can_vote_on_dispute w.voter_address a (f d).target_address false) (parties d).0
        ∙ ap (λ a. can_vote_on_dispute w.voter_address d.filer_address a false) (parties d).1
    same_rights w d false = refl

added-AreFair :
    (c : Dispute) (ds : List Dispute) (vs : List Vote)
    → find_dispute c.id ds ≡ none
    → AreFair ds vs
    → AreFair (c ∷ ds) vs
added-AreFair c ds vs fresh v = record {
  once = v.once;
  allowed =
      All-weaken vs
        (λ w k. record {
          dispute = k.dispute;
          found =
              ap (λ b. if b then some c else find_dispute w.dispute_id ds)
                (below_new c w.dispute_id ds k.dispute fresh k.found)
              ∙ k.found;
          allowed = k.allowed;
        })
        v.allowed;
}

voted-parties :
    (b : Ballot) (now : ℕ) (st : Option DisputeStatus) (d : Dispute)
    → HasParties d (voted b now st d)
voted-parties b now none d = (refl, refl)
voted-parties b now (some st) d = (refl, refl)

AreFair-IsKept : IsKept AreFair (λ r. Unit)
AreFair-IsKept = record {
  on_added = λ c ds vs fresh y z v. added-AreFair c ds vs fresh v;
  on_revised =
      λ p f ds vs ids parties fors againsts live v. revised-AreFair p f ds vs ids parties v;
  on_stored = λ b t ok first a v. stored-AreFair t b ok first v;
  on_voted = λ b now st t ok first v.
      revised-AreFair (has_id b.dispute.id) (voted b now st) t.disputes (with_vote b t).votes
        (voted-id b now st) (voted-parties b now st) (stored-AreFair t b ok first v);
}

-- If at first nobody has voted twice on a dispute, and every vote is of an address that is neither the
-- filer nor the target of its dispute, then so it is after any requests that are served one after
-- another, however the database fails.
pub serve_all-AreFair :
    (rs : List (Request × ℕ)) (t : Tables)
    → AreFair t.disputes t.votes
    → AreFair (serve_all rs t).disputes (serve_all rs t).votes
serve_all-AreFair rs t = serve_all_kept AreFair (λ r. Unit) AreFair-IsKept rs t (any-IsServed rs t)
