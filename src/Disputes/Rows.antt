-- ===== src/Disputes/Rows.antt =====
-- The rows of disputes and the table of votes, as rows are revised, added and voted on
-- (frontend/app/api/disputes).
use joint_save.Prelude.{
  ℕ, String, Bool, true, false, not, Option, none, some, List, ◌∷◌, ◌+◌, ◌&&◌, ◌≡◌, refl, arith,
  sym, ap, ◌∙◌, if◌then◌else◌, map, Bool-cases, Option-cases, inl, inr, or_else, eq_iff,
}
use joint_save.Prelude.Text.{str_eq}
use joint_save.Disputes.Store.{Dispute, Vote, find_dispute, has_id, update_row, votes_of}
use joint_save.Disputes.Voting.{Ballot, voted}
use joint_save.Disputes.Rules.{DisputeStatus}
use joint_save.Disputes.Requests.{
  find_dispute-id, find_dispute-inj, find_dispute-map, map_found, voted-id,
}

-- each row counts its votes, and an id without a row has none
pub record IsTallied (ds : List Dispute) (vs : List Vote) : Type 0 where
  pub for_side :
      (i : String) (d : Dispute) → find_dispute i ds ≡ some d → d.votes_for ≡ votes_of i true vs
  pub against_side :
      (i : String) (d : Dispute)
      → find_dispute i ds ≡ some d
      → d.votes_against ≡ votes_of i false vs
  pub unknown : (i : String) (side : Bool) → find_dispute i ds ≡ none → votes_of i side vs ≡ 0

-- the row behind a row that is found after an update
origin :
    (i : String) (p : Dispute → Bool) (f : Dispute → Dispute) (ds : List Dispute) (d : Dispute)
    → ((e : Dispute) → (f e).id ≡ e.id)
    → find_dispute i (map (update_row p f) ds) ≡ some d
    → (e : Dispute) × (find_dispute i ds ≡ some e) × (update_row p f e ≡ d)
origin i p f ds d ids found = elim (Option-cases (find_dispute i ds)) [
  | inl e ↦ absurd (ground (arith, found, find_dispute-map i p f ds ids, e))
  | inr (e, k) ↦ (
    e,
    k,
    ap (λ o. or_else o (update_row p f e))
        (sym (ap (map_found (update_row p f)) k) ∙ sym (find_dispute-map i p f ds ids) ∙ found),
  )
]

no_origin :
    (i : String) (p : Dispute → Bool) (f : Dispute → Dispute) (ds : List Dispute)
    → ((e : Dispute) → (f e).id ≡ e.id)
    → find_dispute i (map (update_row p f) ds) ≡ none
    → find_dispute i ds ≡ none
no_origin i p f ds ids gone = elim (Option-cases (find_dispute i ds)) [
  | inl e ↦ e
  | inr (e, k) ↦ absurd (ground (arith, gone, find_dispute-map i p f ds ids, k))
]

kept_count :
    (g : Dispute → ℕ) (p : Dispute → Bool) (f : Dispute → Dispute) (e : Dispute)
    → ((d : Dispute) → g (f d) ≡ g d)
    → g (update_row p f e) ≡ g e
kept_count g p f e keeps = elim (Bool-cases (p e)) [ inl k ↦ rw k (keeps e) | inr k ↦ rw k refl ]

pub revised-IsTallied :
    (p : Dispute → Bool) (f : Dispute → Dispute) (ds : List Dispute) (vs : List Vote)
    → ((d : Dispute) → (f d).id ≡ d.id)
    → ((d : Dispute) → (f d).votes_for ≡ d.votes_for)
    → ((d : Dispute) → (f d).votes_against ≡ d.votes_against)
    → IsTallied ds vs
    → IsTallied (map (update_row p f) ds) vs
revised-IsTallied p f ds vs ids fors againsts v = record {
  for_side = λ i d k.
      let (e, found, same) = origin i p f ds d ids k in
      ap (λ x. x.votes_for) (sym same)
      ∙ kept_count (λ x. x.votes_for) p f e fors
      ∙ v.for_side i e found;
  against_side = λ i d k.
      let (e, found, same) = origin i p f ds d ids k in
      ap (λ x. x.votes_against) (sym same)
      ∙ kept_count (λ x. x.votes_against) p f e againsts
      ∙ v.against_side i e found;
  unknown = λ i side k. v.unknown i side (no_origin i p f ds ids k);
}

pub added-IsTallied :
    (c : Dispute) (ds : List Dispute) (vs : List Vote)
    → find_dispute c.id ds ≡ none
    → c.votes_for ≡ 0
    → c.votes_against ≡ 0
    → IsTallied ds vs
    → IsTallied (c ∷ ds) vs
added-IsTallied c ds vs fresh z w v = record {
  for_side = λ i d k. elim (Bool-cases (str_eq c.id i)) [
    | inl same ↦
        ap (λ x. x.votes_for) (sym (head_row i d same k)) ∙ z ∙ sym (v.unknown i true (gone i same))
    | inr other ↦ v.for_side i d (ground (arith, other, k))
  ];
  against_side = λ i d k. elim (Bool-cases (str_eq c.id i)) [
    | inl same ↦
        ap (λ x. x.votes_against) (sym (head_row i d same k))
        ∙ w
        ∙ sym (v.unknown i false (gone i same))
    | inr other ↦ v.against_side i d (ground (arith, other, k))
  ];
  unknown = λ i side k. v.unknown i side (below i k);
}
  where
    gone : (i : String) → str_eq c.id i ≡ true → find_dispute i ds ≡ none
    gone i same = ap (λ j. find_dispute j ds) (sym ((eq_iff c.id i).0 same)) ∙ fresh

    head_row :
        (i : String) (d : Dispute) → str_eq c.id i ≡ true → find_dispute i (c ∷ ds) ≡ some d → c ≡ d
    head_row i d same k =
        ap (λ o. or_else o d) (ap (λ b. if b then some c else find_dispute i ds) (sym same) ∙ k)

    below : (i : String) → find_dispute i (c ∷ ds) ≡ none → find_dispute i ds ≡ none
    below i k = ground (arith, k)

-- the votes of an id, with one more
votes_of-cons :
    (i : String) (side : Bool) (v : Vote) (vs : List Vote)
    → votes_of i side (v ∷ vs)
      ≡ (if str_eq v.dispute_id i && (if side then v.vote else not v.vote) then 1 else 0)
        + votes_of i side vs
votes_of-cons i side v vs = ground arith

-- what a ballot adds to the side that it is for
abbrev added_votes : Ballot → Bool → ℕ
added_votes b side = if (if side then b.vote else not b.vote) then 1 else 0

voted-for :
    (b : Ballot) (now : ℕ) (v : Option DisputeStatus) (d : Dispute)
    → (voted b now v d).votes_for ≡ b.dispute.votes_for + added_votes b true
voted-for b now none d = refl
voted-for b now (some st) d = refl

voted-against :
    (b : Ballot) (now : ℕ) (v : Option DisputeStatus) (d : Dispute)
    → (voted b now v d).votes_against ≡ b.dispute.votes_against + added_votes b false
voted-against b now none d = ground arith
voted-against b now (some st) d = ground arith

abbrev vote_row : Ballot → Vote
vote_row b = record { dispute_id = b.dispute.id; voter_address = b.voter; vote = b.vote }

module _ (b : Ballot) (ds : List Dispute)
    (found : find_dispute b.dispute.id ds ≡ some b.dispute) where
  elsewhere : (i : String) → find_dispute i ds ≡ none → str_eq b.dispute.id i ≡ false
  elsewhere i gone = elim (Bool-cases (str_eq b.dispute.id i)) [
    | inl same ↦
        absurd (
          ground (arith, found, ap (λ j. find_dispute j ds) ((eq_iff b.dispute.id i).0 same), gone))
    | inr other ↦ other
  ]

  own_id :
      (i : String) (e : Dispute)
      → find_dispute i ds ≡ some e
      → str_eq e.id b.dispute.id ≡ str_eq b.dispute.id i
  own_id i e was =
      let id = find_dispute-id i ds e was in
      ground (arith, eq_iff e.id b.dispute.id, eq_iff b.dispute.id i, id)

  -- one side of one row, after the vote
  side_count :
      (g : Dispute → ℕ) (side : Bool) (f : Dispute → Dispute) (vs : List Vote) (i : String)
      (e : Dispute)
      → g (f e) ≡ g b.dispute + added_votes b side
      → find_dispute i ds ≡ some e
      → g e ≡ votes_of i side vs
      → g (update_row (has_id b.dispute.id) f e) ≡ votes_of i side (vote_row b ∷ vs)
  side_count g side f vs i e counts was before = elim (Bool-cases (str_eq e.id b.dispute.id)) [
    | inl same ↦
        ap (λ c. g (if◌then◌else◌ {A = Dispute} c (f e) e)) same
        ∙ counts
        ∙ ground (
          arith,
          same,
          own_id i e was,
          ap g (find_dispute-inj i ds b.dispute e was found same),
          before,
          votes_of-cons i side (vote_row b) vs,
        )
    | inr other ↦
        ap (λ c. g (if◌then◌else◌ {A = Dispute} c (f e) e)) other
        ∙ ground (arith, other, own_id i e was, before, votes_of-cons i side (vote_row b) vs)
  ]

  pub voted-IsTallied :
      (now : ℕ) (st : Option DisputeStatus) (vs : List Vote)
      → IsTallied ds vs
      → IsTallied (map (update_row (has_id b.dispute.id) (voted b now st)) ds) (vote_row b ∷ vs)
  voted-IsTallied now st vs v = record {
    for_side = λ i d k.
        let (e, was, same) =
          origin i (has_id b.dispute.id) (voted b now st) ds d (voted-id b now st) k in
        ap (λ x. x.votes_for) (sym same)
        ∙ side_count (λ x. x.votes_for) true (voted b now st) vs i e (voted-for b now st e) was
            (v.for_side i e was);
    against_side = λ i d k.
        let (e, was, same) =
          origin i (has_id b.dispute.id) (voted b now st) ds d (voted-id b now st) k in
        ap (λ x. x.votes_against) (sym same)
        ∙ side_count (λ x. x.votes_against) false (voted b now st) vs i e (voted-against b now st e)
            was (v.against_side i e was);
    unknown = λ i side k.
        let none_there =
          no_origin i (has_id b.dispute.id) (voted b now st) ds (voted-id b now st) k in
        ground (
          arith,
          votes_of-cons i side (vote_row b) vs,
          v.unknown i side none_there,
          elsewhere i none_there,
        );
  }
