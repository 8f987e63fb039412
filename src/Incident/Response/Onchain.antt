-- ===== src/Incident/Response/Onchain.antt =====
-- The attempt to pause a pool's contract (attemptOnChainPause of
-- frontend/lib/server/incident-actions.ts).
use joint_save.Prelude.{
  ℕ, String, Bool, not, ◌&&◌, Option, none, some, List, [], ◌∷◌, if◌then◌else◌, map, any, filter,
  is_some,
}
use joint_save.Prelude.Text.{str_eq}
use joint_save.Incident.Authorization.{
  StoredPauseAuthorization, AuthorizationRejection, auth_ledger_safety_margin,
  select_pause_authorization,
}
use joint_save.Incident.Response.Store.{
  PoolRow, OnchainStatus, pending, confirmed, failed, AuthorizationRow, Note, no_contract_address,
  rpc_unreachable, none_signed, claimed_by_another, paused_on_chain, attempt_errored, unusable,
  because, Database, pool_row,
}
use joint_save.Incident.Response.Steps.{
  Luck, Submission, at_ledger, ledger_throws, refused, submission_throws, submitted, unavailable,
  unreachable,
}

-- the rows of a pool with neither `used_at` nor `revoked_at`
abbrev pub is_candidate : String → AuthorizationRow → Bool
is_candidate i a =
    str_eq a.pool_id i && (not (is_some a.stored.used_at) && not (is_some a.stored.revoked_at))

unfoldable pub candidates_of : String → List AuthorizationRow → List StoredPauseAuthorization
candidates_of i rows = map (λ a. a.stored) (filter (is_candidate i) rows)

-- `update … where id = h and used_at is null`
abbrev pub may_claim : String → AuthorizationRow → Bool
may_claim h a = str_eq a.stored.id h && not (is_some a.stored.used_at)

abbrev pub claim_row : String → String → ℕ → AuthorizationRow → AuthorizationRow
claim_row h time i a =
    if may_claim h a
    then record a { stored = record (a.stored) { used_at = some time }; used_by_incident = some i }
    else a

pub record OnchainOutcome : Type 0 where
  pub status : OnchainStatus
  pub hash : Option String
  pub note : Note

abbrev pub waits_for : Note → OnchainOutcome
waits_for note = record { status = pending; hash = none; note = note }

abbrev pub submission_outcome : Submission → OnchainOutcome
submission_outcome (submitted h) = record {
  status = confirmed;
  hash = some h;
  note = paused_on_chain;
}
submission_outcome (unavailable why) = waits_for (because why)
submission_outcome (refused h why) = record { status = failed; hash = h; note = because why }
submission_outcome submission_throws = waits_for attempt_errored

-- The claim of the authorization that was chosen, and its submission where the claim got it.
unfoldable pub claim_and_submit :
    Luck → StoredPauseAuthorization → ℕ → Database → OnchainOutcome × Database
claim_and_submit l a i db =
    if l.claims && any (may_claim a.id) db.authorizations
    then (
      submission_outcome l.submission,
      record db {
        authorizations = map (claim_row a.id l.now_text i) db.authorizations;
        submitted = a.id ∷ db.submitted;
      },
    )
    else (waits_for claimed_by_another, db)

abbrev pub why_none : List (String × AuthorizationRejection) → Note
why_none [] = none_signed
why_none ((h, r) ∷ rest) = unusable (r ∷ map (λ x. x.1) rest)

abbrev pub stored_of : Luck → String → Database → List StoredPauseAuthorization
stored_of l i db = if l.reads_authorizations then candidates_of i db.authorizations else []

unfoldable pub spend_authorization :
    Luck → PoolRow → String → ℕ → ℕ → Database → OnchainOutcome × Database
spend_authorization l p contract ledger i db =
    let choice =
      select_pause_authorization (stored_of l p.id db) ledger
        (record { contract_address = contract; admin_address = p.creator_address })
        auth_ledger_safety_margin in
    elim choice.authorization [
      | none ↦ (waits_for (why_none choice.rejected), db)
      | some a ↦ claim_and_submit l a i db
    ]

-- `pool?.contract_address`, where an empty text counts as none
abbrev pub contract_of : Option PoolRow → Option String
contract_of none = none
contract_of (some p) = elim p.contract_address [
  | none ↦ none
  | some a ↦ if str_eq a "" then none else some a
]

-- with the `catch` around its call
unfoldable pub attempt_on_chain_pause : Luck → String → ℕ → Database → OnchainOutcome × Database
attempt_on_chain_pause l pool i db = elim (if l.reads_pool then pool_row pool db.pools else none) [
  | none ↦ (waits_for no_contract_address, db)
  | some p ↦ elim (contract_of (some p)) [
    | none ↦ (waits_for no_contract_address, db)
    | some contract ↦ elim l.ledger [
      | ledger_throws ↦ (waits_for attempt_errored, db)
      | unreachable ↦ (waits_for rpc_unreachable, db)
      | at_ledger n ↦ spend_authorization l p contract n i db
    ]
  ]
]
