-- ===== src/Incident/Authorization.antt =====
-- Choosing the pre-signed authorization to spend on a pause (`selectPauseAuthorization` and
-- `rejectionFor` in frontend/lib/incident-response.ts).
use Prim.Native.String.{compare}
use text.Mathlib.Text.{is_lt}
use joint_save.Prelude.{
  ℕ, String, Bool, not, ◌&&◌, ◌||◌, Option, none, some, List, [], ◌∷◌, ◌++◌, ◌-◌, if◌then◌else◌,
  ltb, leb, ◌==◌, head?, is_some,
}
use joint_save.Prelude.Text.{str_eq, to_lower_case}
use joint_save.Prelude.Sort.{sort_by}

pub record StoredPauseAuthorization : Type 0 where
  pub id : String
  pub contract_address : String
  pub admin_address : String
  pub expiration_ledger : ℕ
  pub used_at : Option String
  pub revoked_at : Option String

pub data AuthorizationRejection : Type 0 where
  used revoked expired expiring_too_soon wrong_contract wrong_admin : AuthorizationRejection

-- `expected`
pub record Expected : Type 0 where
  pub contract_address : String
  pub admin_address : String

pub record AuthorizationChoice : Type 0 where
  pub authorization : Option StoredPauseAuthorization
  pub rejected : List (String × AuthorizationRejection)

abbrev pub auth_ledger_safety_margin : ℕ
auth_ledger_safety_margin = 20

unfoldable pub rejection_for :
    StoredPauseAuthorization → ℕ → Expected → ℕ → Option AuthorizationRejection
rejection_for a now want margin =
    if is_some a.used_at
    then some used
    else if is_some a.revoked_at
    then some revoked
    else if not (str_eq a.contract_address want.contract_address)
    then some wrong_contract
    else if not (str_eq (to_lower_case a.admin_address) (to_lower_case want.admin_address))
    then some wrong_admin
    else if leb a.expiration_ledger now
    then some expired
    else if ltb (a.expiration_ledger - now) margin
    then some expiring_too_soon
    else none

-- the sort's comparator: the ledger, then the id
abbrev pub expires_before : StoredPauseAuthorization → StoredPauseAuthorization → Bool
expires_before a b =
    ltb a.expiration_ledger b.expiration_ledger
    || a.expiration_ledger == b.expiration_ledger && is_lt (compare a.id b.id)

-- the loop over the candidates, with the two lists that it fills
unfoldable pub partition :
    ℕ
    → Expected
    → ℕ
    → List StoredPauseAuthorization
    → List (String × AuthorizationRejection)
    → List StoredPauseAuthorization
    → List (String × AuthorizationRejection) × List StoredPauseAuthorization
partition now want margin [] rejected usable = (rejected, usable)
partition now want margin (a ∷ rest) rejected usable = elim (rejection_for a now want margin) [
  | some why ↦ partition now want margin rest (rejected ++ (a.id, why) ∷ []) usable
  | none ↦ partition now want margin rest rejected (usable ++ a ∷ [])
]

unfoldable pub select_pause_authorization :
    List StoredPauseAuthorization → ℕ → Expected → ℕ → AuthorizationChoice
unfolding partition
select_pause_authorization candidates now want margin =
    let (rejected, usable) = partition now want margin candidates [] [] in
    record { authorization = head? (sort_by expires_before usable); rejected = rejected }
