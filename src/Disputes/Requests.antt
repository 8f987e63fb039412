-- ===== src/Disputes/Requests.antt =====
-- The requests on disputes as they are served one after another (frontend/app/api/disputes), and what a
-- vote does to the tables.
use joint_save.Prelude.{
  ℕ, String, Bool, true, false, not, Option, none, some, List, [], ◌∷◌, ◌&&◌, ◌≡◌, refl, arith, sym,
  ap, ◌∙◌, if◌then◌else◌, map, any, Bool-cases, Option-cases, inl, inr, or_else, eq_iff,
}
use mathlib.Core.Path.{subst}
use joint_save.Prelude.Text.{str_eq}
use joint_save.Disputes.Rules.{DisputeStatus, can_vote_on_dispute}
use joint_save.Disputes.Store.{
  Dispute, Member, Pool, Tables, Reply, refused, accepted, is_active, is_paired, find_dispute,
  has_voted, has_id, update_row, update_where,
}
use joint_save.Disputes.Voting.{
  VoteRequest, VoteLuck, Ballot, Opening, turned_away, admitted, voter_of, check_voter,
  read_dispute, open_vote, insert_vote, verdict, voted, log_verdict, written, needed_votes,
  write_vote, after_insert, cast_vote,
}
use joint_save.Disputes.Filing.{FileRequest, FileLuck, file_dispute}
use joint_save.Disputes.Closing.{ResolveRequest, ResolveLuck, resolve_dispute, expire_disputes}

-- `members_become` is what other routes do to the pools and their members
pub data Request : Type 0 where
  votes : VoteLuck → VoteRequest → Request
  files : FileLuck → FileRequest → Request
  resolves : ResolveLuck → ResolveRequest → Request
  expires : Option String → String → Bool → Request
  members_become : List Member → List Pool → Request

unfoldable pub serve : Request → ℕ → Tables → Reply × Tables
serve (votes l r) now t = cast_vote l r now t
serve (files l r) now t = file_dispute l r now t
serve (resolves l r) now t = resolve_dispute l r now t
serve (expires secret header fails) now t = expire_disputes secret header fails now t
serve (members_become ms ps) now t = (accepted 200 none, record t { members = ms; pools = ps })

-- requests with the times at which they are served
unfoldable pub serve_all : List (Request × ℕ) → Tables → Tables
unfolding serve
serve_all [] t = t
serve_all ((r, now) ∷ rs) t = serve_all rs (serve r now t).1

-- the row behind a ballot is in the table, its vote is open, and the voter may vote and has not
pub record Admitted (t : Tables) (b : Ballot) : Type 0 where
  pub found : find_dispute b.dispute.id t.disputes ≡ some b.dispute
  pub active : is_active b.dispute.status ≡ true
  pub allowed :
      can_vote_on_dispute b.voter b.dispute.filer_address b.dispute.target_address false ≡ true

abbrev pub with_vote : Ballot → Tables → Tables
with_vote b t = record t {
  votes = record { dispute_id = b.dispute.id; voter_address = b.voter; vote = b.vote } ∷ t.votes;
}

-- What a vote does: nothing; or its row is stored and the count fails; or both are written.
pub data VoteOutcome (now : ℕ) (t : Tables) (o : Reply × Tables) : Type 0 where
  kept : o.1 ≡ t → VoteOutcome now t o
  stored :
      (b : Ballot)
      → Admitted t b
      → has_voted b.dispute.id b.voter t.votes ≡ false
      → o ≡ (refused 500, with_vote b t)
      → VoteOutcome now t o
  tallied :
      (b : Ballot) (v : Option DisputeStatus) (log_fails : Bool)
      → Admitted t b
      → has_voted b.dispute.id b.voter t.votes ≡ false
      → o.1 ≡ record (with_vote b t) {
        disputes = map (update_row (has_id b.dispute.id) (voted b now v)) t.disputes;
        activity = log_verdict log_fails b v t.activity;
      }
      → VoteOutcome now t o

pub find_dispute-id :
    (i : String) (ds : List Dispute) (d : Dispute) → find_dispute i ds ≡ some d → d.id ≡ i
find_dispute-id i [] d h = absurd (ground (arith, h))
find_dispute-id i (e ∷ ds) d h = elim (Bool-cases (str_eq e.id i)) [
  | inl same ↦ ap (λ x. x.id) (sym (ap (λ x. or_else x d) (shut same ∙ h))) ∙ (eq_iff e.id i).0 same
  | inr other ↦ find_dispute-id i ds d (ground (arith, h, other))
]
  where
    shut : str_eq e.id i ≡ true → some e ≡ find_dispute i (e ∷ ds)
    shut same = sym (ap (λ b. if b then some e else find_dispute i ds) same)

-- two rows found under the same id are one
pub find_dispute-inj :
    (i : String) (ds : List Dispute) (d e : Dispute)
    → find_dispute i ds ≡ some e
    → find_dispute d.id ds ≡ some d
    → str_eq e.id d.id ≡ true
    → e ≡ d
find_dispute-inj i ds d e k found same =
    let own = sym (find_dispute-id i ds e k) ∙ (eq_iff e.id d.id).0 same in
    ap (λ o. or_else o d) (sym k ∙ ap (λ j. find_dispute j ds) own ∙ found)

check_voter-Admitted :
    (l : VoteLuck) (now : ℕ) (t : Tables) (c b : Ballot)
    → find_dispute c.dispute.id t.disputes ≡ some c.dispute
    → check_voter l now t c ≡ admitted b
    → Admitted t b
check_voter-Admitted l now t c b f h =
    subst (Admitted t) same
      (record { found = f; active = ground (arith, h); allowed = ground (arith, h) })
  where
    same : c ≡ b
    same = ground (arith, h)

open_vote-Admitted :
    (l : VoteLuck) (r : VoteRequest) (now : ℕ) (t : Tables) (b : Ballot)
    → open_vote l r now t ≡ admitted b
    → Admitted t b
unfolding open_vote
open_vote-Admitted l r now t b h = elim (Bool-cases l.is_limited) [
  | inl yes_limited ↦ absurd (ground (arith, h, yes_limited))
  | inr free ↦ elim (Option-cases r.vote) [
    | inl e ↦ absurd (ground (arith, h, free, e))
    | inr (v, e) ↦ elim (Option-cases (read_dispute l.finds_dispute r.dispute_id t)) [
      | inl k ↦ absurd (ground (arith, h, free, e, k))
      | inr (d, k) ↦
          check_voter-Admitted l now t (record { dispute = d; voter = voter_of r; vote = v }) b
            (at_own_id d (read_found d k)) (ground (arith, h, free, e, k))
    ]
  ]
]
  where
    read_found :
        (d : Dispute)
        → read_dispute l.finds_dispute r.dispute_id t ≡ some d
        → find_dispute r.dispute_id t.disputes ≡ some d
    read_found d k = ground (arith, k)

    at_own_id :
        (d : Dispute)
        → find_dispute r.dispute_id t.disputes ≡ some d
        → find_dispute d.id t.disputes ≡ some d
    at_own_id d k =
        ap (λ i. find_dispute i t.disputes) (find_dispute-id r.dispute_id t.disputes d k) ∙ k

abbrev pub map_found : (Dispute → Dispute) → Option Dispute → Option Dispute
map_found f none = none
map_found f (some d) = some (f d)

-- An update that keeps the ids is found under them.
pub find_dispute-map :
    (i : String) (p : Dispute → Bool) (f : Dispute → Dispute) (ds : List Dispute)
    → ((d : Dispute) → (f d).id ≡ d.id)
    → find_dispute i (map (update_row p f) ds) ≡ map_found (update_row p f) (find_dispute i ds)
find_dispute-map i p f [] keeps = refl
find_dispute-map i p f (d ∷ ds) keeps =
    ap
      (λ k.
        if str_eq k i then some (update_row p f d) else find_dispute i (map (update_row p f) ds))
      same_id
    ∙ below (find_dispute-map i p f ds keeps)
  where
    same_id : (update_row p f d).id ≡ d.id
    same_id = elim (Bool-cases (p d)) [ inl yes_p ↦ rw yes_p (keeps d) | inr no_p ↦ rw no_p refl ]

    below :
        find_dispute i (map (update_row p f) ds) ≡ map_found (update_row p f) (find_dispute i ds)
        → (if str_eq d.id i
            then some (update_row p f d)
            else find_dispute i (map (update_row p f) ds))
          ≡ map_found (update_row p f) (if str_eq d.id i then some d else find_dispute i ds)
    below rest = elim (Bool-cases (str_eq d.id i)) [
      | inl here ↦ rw here refl
      | inr below_it ↦ rw below_it rest
    ]

pub voted-id :
    (b : Ballot) (now : ℕ) (v : Option DisputeStatus) (d : Dispute) → (voted b now v d).id ≡ d.id
voted-id b now none d = refl
voted-id b now (some st) d = refl

write_vote-outcome :
    (l : VoteLuck) (b : Ballot) (now : ℕ) (t : Tables)
    → Admitted t b
    → has_voted b.dispute.id b.voter t.votes ≡ false
    → VoteOutcome now t (write_vote l b now (with_vote b t))
unfolding write_vote update_where
write_vote-outcome l b now t a first = elim (Bool-cases l.update_fails) [
  | inl e ↦ stored b a first (rw (write_vote, e) refl)
  | inr e ↦
      elim (Bool-cases
        (any (λ d. has_id b.dispute.id d && not (is_paired (voted b now v d))) t.disputes)) [
          | inl k ↦ stored b a first (rw (write_vote, e, update_where, k) refl)
          | inr k ↦
              tallied b v l.log_fails a first
                (rw (write_vote, e, update_where, k) (rw (written, found) refl))
        ]
]
  where
    v : Option DisputeStatus
    v = verdict (needed_votes l b t) b

    found :
        find_dispute b.dispute.id
          (map (update_row (has_id b.dispute.id) (voted b now v)) t.disputes)
        ≡ some (update_row (has_id b.dispute.id) (voted b now v) b.dispute)
    found =
        find_dispute-map b.dispute.id (has_id b.dispute.id) (voted b now v) t.disputes
          (voted-id b now v)
        ∙ ap (map_found (update_row (has_id b.dispute.id) (voted b now v))) a.found

pub cast_vote-outcome :
    (l : VoteLuck) (r : VoteRequest) (now : ℕ) (t : Tables)
    → VoteOutcome now t (cast_vote l r now t)
unfolding cast_vote insert_vote write_vote
cast_vote-outcome l r now t = by_opening (open_vote l r now t) refl
  where
    inserted :
        (b : Ballot) → Admitted t b → VoteOutcome now t (after_insert l b now (insert_vote l b t))
    inserted b a = elim (Bool-cases l.insert_fails) [
      | inl e ↦ kept (rw (insert_vote, e) refl)
      | inr e ↦ elim (Bool-cases (has_voted b.dispute.id b.voter t.votes)) [
        | inl k ↦ kept (rw (insert_vote, e, k) refl)
        | inr k ↦ rw (insert_vote, e, k) (write_vote-outcome l b now t a k)
      ]
    ]

    by_opening : (o : Opening) → open_vote l r now t ≡ o → VoteOutcome now t (cast_vote l r now t)
    by_opening (turned_away code) e = rw (cast_vote, e) (kept refl)
    by_opening (admitted b) e =
        let a = open_vote-Admitted l r now t b e in rw (cast_vote, e) (inserted b a)
