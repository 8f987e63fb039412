-- ===== src/Disputes/Served.antt =====
-- What requests that are served one after another keep true of the rows and the votes
-- (frontend/app/api/disputes).
use joint_save.Prelude.{
  ℕ, String, Bool, true, false, Option, some, none, List, [], ◌∷◌, ◌≡◌, sym, ap, map,
}
use mathlib.Core.Path.{subst}
use joint_save.Disputes.Rules.{DisputeStatus}
use joint_save.Disputes.Store.{
  Dispute, Vote, Tables, Reply, refused, is_active, find_dispute, has_id, has_voted, update_row,
}
use joint_save.Disputes.Voting.{Ballot, voted}
use joint_save.Disputes.Requests.{
  Request, votes, files, resolves, expires, members_become, serve, serve_all, with_vote, Admitted,
  VoteOutcome, kept, stored, tallied, cast_vote-outcome,
}
use joint_save.Disputes.Moves.{
  HasParties, Moved, still, added, revised, file_dispute-Moved, resolve_dispute-Moved,
  expire_disputes-Moved,
}

-- A property that every way of changing the tables keeps, where the answers are such as `Answered` says.
pub record IsKept {κ} (P : List Dispute → List Vote → Type κ) (Answered : Reply → Type 0)
    : Type κ where
  pub on_added :
      (c : Dispute) (ds : List Dispute) (vs : List Vote)
      → find_dispute c.id ds ≡ none
      → c.votes_for ≡ 0
      → c.votes_against ≡ 0
      → P ds vs
      → P (c ∷ ds) vs
  pub on_revised :
      (p : Dispute → Bool) (f : Dispute → Dispute) (ds : List Dispute) (vs : List Vote)
      → ((d : Dispute) → (f d).id ≡ d.id)
      → ((d : Dispute) → HasParties d (f d))
      → ((d : Dispute) → (f d).votes_for ≡ d.votes_for)
      → ((d : Dispute) → (f d).votes_against ≡ d.votes_against)
      → ((i : String) (d : Dispute)
          → find_dispute i ds ≡ some d
          → p d ≡ true
          → is_active d.status ≡ true)
      → P ds vs
      → P (map (update_row p f) ds) vs
  pub on_stored :
      (b : Ballot) (t : Tables)
      → Admitted t b
      → has_voted b.dispute.id b.voter t.votes ≡ false
      → Answered (refused 500)
      → P t.disputes t.votes
      → P t.disputes (with_vote b t).votes
  pub on_voted :
      (b : Ballot) (now : ℕ) (st : Option DisputeStatus) (t : Tables)
      → Admitted t b
      → has_voted b.dispute.id b.voter t.votes ≡ false
      → P t.disputes t.votes
      → P (map (update_row (has_id b.dispute.id) (voted b now st)) t.disputes) (with_vote b t).votes

module _ (Answered : Reply → Type 0) where
  abbrev pub IsServed : List (Request × ℕ) → Tables → Type 0
  IsServed [] t = Unit
  IsServed ((r, now) ∷ rs) t = Answered (serve r now t).0 × IsServed rs (serve r now t).1

-- any answers will do
pub any-IsServed : (rs : List (Request × ℕ)) (t : Tables) → IsServed (λ r. Unit) rs t
any-IsServed [] t = tt
any-IsServed ((r, now) ∷ rs) t = (tt, any-IsServed rs (serve r now t).1)

module _ {κ} (P : List Dispute → List Vote → Type κ) (Answered : Reply → Type 0)
    (k : IsKept P Answered) where
  moved : {ds es : List Dispute} {vs ws : List Vote} → ds ≡ es → vs ≡ ws → P es ws → P ds vs
  moved {ds} {vs} {ws} e w v = subst (λ x. P ds x) (sym w) (subst (λ x. P x ws) (sym e) v)

  after_move :
      (t : Tables) (o : Reply × Tables)
      → Moved t o
      → P t.disputes t.votes
      → P o.1.disputes o.1.votes
  after_move t o (still e w) v = moved e w v
  after_move t o (added c fresh y z e w) v = moved e w (k.on_added c t.disputes t.votes fresh y z v)
  after_move t o (revised p f ids parties fors againsts live e w) v =
      moved e w (k.on_revised p f t.disputes t.votes ids parties fors againsts live v)

  after_vote :
      (now : ℕ) (t : Tables) (o : Reply × Tables)
      → VoteOutcome now t o
      → Answered o.0
      → P t.disputes t.votes
      → P o.1.disputes o.1.votes
  after_vote now t o (kept e) a v = moved (ap (λ u. u.disputes) e) (ap (λ u. u.votes) e) v
  after_vote now t o (stored b ok first e) a v =
      moved (ap (λ u. u.1.disputes) e) (ap (λ u. u.1.votes) e)
        (k.on_stored b t ok first (subst (λ u. Answered u.0) e a) v)
  after_vote now t o (tallied b st log_fails ok first e) a v =
      moved (ap (λ u. u.disputes) e) (ap (λ u. u.votes) e) (k.on_voted b now st t ok first v)

  serve_kept :
      (r : Request) (now : ℕ) (t : Tables)
      → Answered (serve r now t).0
      → P t.disputes t.votes
      → P (serve r now t).1.disputes (serve r now t).1.votes
  unfolding serve
  serve_kept (votes l r) now t = after_vote now t _ (cast_vote-outcome l r now t)
  serve_kept (files l r) now t = λ a. after_move t _ (file_dispute-Moved l r now t)
  serve_kept (resolves l r) now t = λ a. after_move t _ (resolve_dispute-Moved l r now t)
  serve_kept (expires secret header fails) now t =
      λ a. after_move t _ (expire_disputes-Moved secret header fails now t)
  serve_kept (members_become ms ps) now t = λ a v. v

  pub serve_all_kept :
      (rs : List (Request × ℕ)) (t : Tables)
      → IsServed Answered rs t
      → P t.disputes t.votes
      → P (serve_all rs t).disputes (serve_all rs t).votes
  unfolding serve_all
  serve_all_kept [] t a v = v
  serve_all_kept ((r, now) ∷ rs) t (a, rest) v =
      serve_all_kept rs (serve r now t).1 rest (serve_kept r now t a v)
