-- ===== src/Disputes/Race.antt =====
-- Two votes at the same time (frontend/app/api/disputes/[id]/vote/route.ts): both requests have read the
-- row and stored their votes before one of them writes the row.
use joint_save.Prelude.{
  ℕ, String, Bool, true, false, not, Option, none, some, List, [], ◌∷◌, ◌&&◌, ◌≡◌, refl, arith, ap,
  ◌∙◌, if◌then◌else◌, map, any, eq_iff,
}
use mathlib.Core.Path.{subst}
use joint_save.Disputes.Rules.{DisputeStatus, resolved_upheld, resolved_dismissed}
use joint_save.Disputes.Store.{
  Dispute, Tables, Reply, refused, is_paired, is_resolved, find_dispute, has_id, update_row,
  update_where,
}
use joint_save.Disputes.Voting.{
  Ballot, VoteLuck, for_count, verdict, needed_votes, voted, log_verdict, written, write_vote,
}
use joint_save.Disputes.Requests.{find_dispute-id, find_dispute-map, map_found, voted-id}

-- the constraint has nothing against a verdict
not_refused :
    (i : String) (b : Ballot) (now : ℕ) (st : DisputeStatus) (ds : List Dispute)
    → is_resolved st ≡ true
    → any (λ d. has_id i d && not (is_paired (voted b now (some st) d))) ds ≡ false
not_refused i b now st [] h = refl
not_refused i b now st (d ∷ ds) h = ground (arith, h, not_refused i b now st ds h)

-- a verdict is written whatever has become of the row
write_vote-verdict :
    (l : VoteLuck) (b : Ballot) (now : ℕ) (st : DisputeStatus) (t : Tables) (e : Dispute)
    → l.update_fails ≡ false
    → is_resolved st ≡ true
    → verdict (needed_votes l b t) b ≡ some st
    → find_dispute b.dispute.id t.disputes ≡ some e
    → (write_vote l b now t).1 ≡ record t {
      disputes = map (update_row (has_id b.dispute.id) (voted b now (some st))) t.disputes;
      activity = log_verdict l.log_fails b (some st) t.activity;
    }
unfolding write_vote update_where
write_vote-verdict l b now st t e lucky resolved v found =
    ap (λ f. (body f (verdict (needed_votes l b t) b)).1) lucky
    ∙ ap (λ w. (body false w).1) v
    ∙ ap (λ c. (outcome (some st) (if c then none else some (rows (some st)))).1)
        (not_refused b.dispute.id b now st t.disputes resolved)
    ∙ rw (written, still_there) refl
  where
    rows : Option DisputeStatus → List Dispute
    rows w = map (update_row (has_id b.dispute.id) (voted b now w)) t.disputes

    outcome : Option DisputeStatus → Option (List Dispute) → Reply × Tables
    outcome w o = elim o [ none ↦ (refused 500, t) | some ds ↦ written l.log_fails b w t ds ]

    body : Bool → Option DisputeStatus → Reply × Tables
    body fails w =
        if fails
        then (refused 500, t)
        else outcome w (update_where (has_id b.dispute.id) (voted b now w) t.disputes)

    still_there :
        find_dispute b.dispute.id (rows (some st))
        ≡ some (update_row (has_id b.dispute.id) (voted b now (some st)) e)
    still_there =
        find_dispute-map b.dispute.id (has_id b.dispute.id) (voted b now (some st)) t.disputes
          (voted-id b now (some st))
        ∙ ap (map_found (update_row (has_id b.dispute.id) (voted b now (some st)))) found

-- the row after an update under its id
row_after :
    (i : String) (f : Dispute → Dispute) (ds : List Dispute) (e : Dispute)
    → ((d : Dispute) → (f d).id ≡ d.id)
    → find_dispute i ds ≡ some e
    → find_dispute i (map (update_row (has_id i) f) ds) ≡ some (f e)
row_after i f ds e ids found =
    find_dispute-map i (has_id i) f ds ids
    ∙ ap (map_found (update_row (has_id i) f)) found
    ∙ ap (λ b. some (if b then f e else e)) ((eq_iff e.id i).1 (find_dispute-id i ds e found))

-- A vote that was checked while a dispute was open overturns the verdict that came since: if two ballots
-- have read the same row, the one reaches the majority that upholds it and the other is against and
-- reaches the majority that dismisses it, then the first to write upholds the dispute, the second
-- dismisses it, and the row no longer counts the first vote.
pub verdict_overturned :
    (l : VoteLuck) (a b : Ballot) (now : ℕ) (t : Tables) (d : Dispute)
    → l.update_fails ≡ false
    → a.dispute ≡ d
    → b.dispute ≡ d
    → b.vote ≡ false
    → find_dispute d.id t.disputes ≡ some d
    → verdict (needed_votes l a t) a ≡ some resolved_upheld
    → verdict (needed_votes l b t) b ≡ some resolved_dismissed
    → let first = (write_vote l a now t).1 in
      (find_dispute d.id first.disputes ≡ some (voted a now (some resolved_upheld) d))
      × (find_dispute d.id (write_vote l b now first).1.disputes
          ≡ some (record (voted b now (some resolved_dismissed) d) { votes_for = d.votes_for }))
verdict_overturned l a b now t d lucky ea eb vb found up down = (
  upheld,
  subst (λ i. find_dispute i (write_vote l b now first).1.disputes ≡ some overturned)
      (ap (λ x. x.id) eb)
      (ap (λ u. find_dispute b.dispute.id u.disputes) wb
        ∙ row_after b.dispute.id (voted b now (some resolved_dismissed)) first.disputes
            (voted a now (some resolved_upheld) d) (voted-id b now (some resolved_dismissed))
            (ap (λ x. find_dispute x.id first.disputes) eb ∙ upheld)
        ∙ ap (λ n. some (record (voted b now (some resolved_dismissed) d) { votes_for = n }))
            uncounted),
)
  where
    first : Tables
    first = (write_vote l a now t).1

    found_as : (c : Ballot) → c.dispute ≡ d → find_dispute c.dispute.id t.disputes ≡ some d
    found_as c e = ap (λ x. find_dispute x.id t.disputes) e ∙ found

    wa : first ≡ record t {
      disputes =
          map (update_row (has_id a.dispute.id) (voted a now (some resolved_upheld))) t.disputes;
      activity = log_verdict l.log_fails a (some resolved_upheld) t.activity;
    }
    wa = write_vote-verdict l a now resolved_upheld t d lucky refl up (found_as a ea)

    upheld : find_dispute d.id first.disputes ≡ some (voted a now (some resolved_upheld) d)
    upheld =
        subst (λ i. find_dispute i first.disputes ≡ some (voted a now (some resolved_upheld) d))
          (ap (λ x. x.id) ea)
          (ap (λ u. find_dispute a.dispute.id u.disputes) wa
            ∙ row_after a.dispute.id (voted a now (some resolved_upheld)) t.disputes d
                (voted-id a now (some resolved_upheld)) (found_as a ea))

    wb : (write_vote l b now first).1 ≡ record first {
      disputes =
          map
            (update_row (has_id b.dispute.id) (voted b now (some resolved_dismissed)))
            first.disputes;
      activity = log_verdict l.log_fails b (some resolved_dismissed) first.activity;
    }
    wb =
        write_vote-verdict l b now resolved_dismissed first (voted a now (some resolved_upheld) d)
          lucky refl (ap (λ u. verdict (needed_votes l b u) b) wa ∙ down)
          (ap (λ x. find_dispute x.id first.disputes) eb ∙ upheld)

    overturned : Dispute
    overturned = record (voted b now (some resolved_dismissed) d) { votes_for = d.votes_for }

    uncounted : for_count b ≡ d.votes_for
    uncounted = ground (arith, vb, ap (λ x. x.votes_for) eb)
