-- ===== src/Disputes/Closed.antt =====
-- A verdict stands, when requests are served one after another (frontend/app/api/disputes).
use joint_save.Prelude.{
  ℕ, String, Bool, true, false, none, some, List, ◌≡◌, arith, sym, ap, ◌∙◌, if◌then◌else◌, map,
  Bool-cases, inl, inr, eq_iff,
}
use joint_save.Prelude.Text.{str_eq}
use joint_save.Disputes.Store.{Dispute, Vote, Tables, is_active, find_dispute, has_id, update_row}
use joint_save.Disputes.Voting.{voted}
use joint_save.Disputes.Requests.{
  Request, serve_all, find_dispute-inj, find_dispute-map, map_found, voted-id,
}
use joint_save.Disputes.Served.{IsKept, any-IsServed, serve_all_kept}

-- an update that leaves out the rows that are closed
untouched :
    (i : String) (d : Dispute) (p : Dispute → Bool) (f : Dispute → Dispute) (ds : List Dispute)
    → ((e : Dispute) → (f e).id ≡ e.id)
    → find_dispute i ds ≡ some d
    → p d ≡ false
    → find_dispute i (map (update_row p f) ds) ≡ some d
untouched i d p f ds ids found out =
    find_dispute-map i p f ds ids
    ∙ ap (map_found (update_row p f)) found
    ∙ ap (λ b. some (if b then f d else d)) out

-- a row found beside a new id has another one
pub below_new :
    (c : Dispute) (i : String) (ds : List Dispute) (d : Dispute)
    → find_dispute c.id ds ≡ none
    → find_dispute i ds ≡ some d
    → str_eq c.id i ≡ false
below_new c i ds d fresh found = elim (Bool-cases (str_eq c.id i)) [
  | inl same ↦
      let gone = ap (λ j. find_dispute j ds) (sym ((eq_iff c.id i).0 same)) ∙ fresh in
      absurd (ground (arith, gone, found))
  | inr other ↦ other
]

-- the row of a closed dispute
abbrev IsRow : String → Dispute → List Dispute → List Vote → Type 0
IsRow i d ds vs = find_dispute i ds ≡ some d

module _ (i : String) (d : Dispute) (closed : is_active d.status ≡ false) where
  left_out : (p : Dispute → Bool) → (p d ≡ true → is_active d.status ≡ true) → p d ≡ false
  left_out p live = elim (Bool-cases (p d)) [
    | inl k ↦ absurd (ground (arith, live k, closed))
    | inr k ↦ k
  ]

  IsRow-IsKept : IsKept (IsRow i d) (λ r. Unit)
  IsRow-IsKept = record {
    on_added = λ c ds vs fresh y z found.
        ap (λ b. if b then some c else find_dispute i ds) (below_new c i ds d fresh found) ∙ found;
    on_revised = λ p f ds vs ids parties fors againsts live found.
        untouched i d p f ds ids found (left_out p (live i d found));
    on_stored = λ b t ok first a found. found;
    on_voted = λ b now st t ok first found.
        untouched i d (has_id b.dispute.id) (voted b now st) t.disputes (voted-id b now st) found (
          left_out (has_id b.dispute.id) (λ same.
            ap (λ x. is_active x.status)
              (find_dispute-inj i t.disputes b.dispute d found ok.found same)
            ∙ ok.active));
  }

-- A dispute that is resolved or expired is never changed again, whatever requests are served one after
-- another and however the database fails.
pub serve_all-closed :
    (rs : List (Request × ℕ)) (t : Tables) (i : String) (d : Dispute)
    → find_dispute i t.disputes ≡ some d
    → is_active d.status ≡ false
    → find_dispute i (serve_all rs t).disputes ≡ some d
serve_all-closed rs t i d found closed =
    serve_all_kept (IsRow i d) (λ r. Unit) (IsRow-IsKept i d closed) rs t (any-IsServed rs t) found
