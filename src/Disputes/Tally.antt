-- ===== src/Disputes/Tally.antt =====
-- The counts of a dispute are its votes, when requests are served one after another
-- (frontend/app/api/disputes).
use joint_save.Prelude.{ℕ, Bool, false, List, ◌≡◌, arith, ◌==◌}
use joint_save.Disputes.Store.{Tables, Reply, refused, accepted}
use joint_save.Disputes.Requests.{Request, serve_all}
use joint_save.Disputes.Served.{IsKept, IsServed, serve_all_kept}
use joint_save.Disputes.Rows.{IsTallied, revised-IsTallied, added-IsTallied, voted-IsTallied}

abbrev pub is_broken : Reply → Bool
is_broken (refused code) = code == 500
is_broken (accepted code d) = false

-- an answer that is no failure of the database
abbrev pub IsWhole : Reply → Type 0
IsWhole r = is_broken r ≡ false

IsTallied-IsKept : IsKept IsTallied IsWhole
IsTallied-IsKept = record {
  on_added = added-IsTallied;
  on_revised =
      λ p f ds vs ids parties fors againsts live v. revised-IsTallied p f ds vs ids fors againsts v;
  on_stored = λ b t ok first whole v. absurd (ground (arith, whole));
  on_voted = λ b now st t ok first v. voted-IsTallied b t.disputes ok.found now st t.votes v;
}

-- If the two counts of every dispute are at first the numbers of its votes for and against it, and no
-- vote is of an unknown dispute, then so it is after any requests that are served one after another, as
-- long as none is answered with a failure of the database (500).
pub serve_all-IsTallied :
    (rs : List (Request × ℕ)) (t : Tables)
    → IsServed IsWhole rs t
    → IsTallied t.disputes t.votes
    → IsTallied (serve_all rs t).disputes (serve_all rs t).votes
serve_all-IsTallied = serve_all_kept IsTallied IsWhole IsTallied-IsKept
