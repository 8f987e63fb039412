-- ===== src/Disputes/Rules.antt =====
-- The rules on disputes (frontend/lib/disputes.ts). Times are milliseconds.
use joint_save.Prelude.{
  ℕ, String, Bool, true, false, not, Option, none, some, List, ◌+◌, ◌-◌, ◌/◌, ◌%◌, ◌&&◌, ◌||◌,
  if◌then◌else◌, ltb, leb, ◌==◌, filter, take, map,
}
use Prim.Native.String as Chars
use Prim.Native.Char.{code}
use joint_save.Prelude.Text.{str_eq, to_lower_case, trim}

abbrev pub dispute_description_max_length : ℕ
dispute_description_max_length = 2000

abbrev pub dispute_max_evidence_urls : ℕ
dispute_max_evidence_urls = 3

abbrev pub dispute_expiry_hours : ℕ
dispute_expiry_hours = 72

pub data DisputeType : Type 0 where
  missed_deposit unfair_penalty admin_abuse member_misconduct other : DisputeType

-- `isDisputeType`, with the type that it finds
abbrev pub dispute_type_of : String → Option DisputeType
dispute_type_of t =
    if str_eq t "missed_deposit"
    then some missed_deposit
    else if str_eq t "unfair_penalty"
    then some unfair_penalty
    else if str_eq t "admin_abuse"
    then some admin_abuse
    else if str_eq t "member_misconduct"
    then some member_misconduct
    else if str_eq t "other"
    then some other
    else none

pub data DisputeStatus : Type 0 where
  opened voting resolved_upheld resolved_dismissed expired : DisputeStatus

-- a number of members is not negative, and is finite
abbrev pub votes_needed_to_resolve : ℕ → ℕ
votes_needed_to_resolve members = (members + 1) / 2

abbrev pub is_dispute_expired : ℕ → ℕ → Bool
is_dispute_expired expires_at now = leb expires_at now

-- what the countdown shows
pub data Countdown : Type 0 where
  is_over : Countdown
  under_a_minute : Countdown
  days_hours : ℕ → ℕ → Countdown
  hours_minutes : ℕ → ℕ → Countdown
  minutes_left : ℕ → Countdown

abbrev pub countdown : ℕ → Countdown
countdown minutes_total =
    if ltb minutes_total 1
    then under_a_minute
    else if ltb 0 (minutes_total / 1440)
    then days_hours (minutes_total / 1440) (minutes_total / 60 % 24)
    else if ltb 0 (minutes_total / 60 % 24)
    then hours_minutes (minutes_total / 60 % 24) (minutes_total % 60)
    else minutes_left (minutes_total % 60)

abbrev pub format_dispute_time_remaining : ℕ → ℕ → Countdown
format_dispute_time_remaining expires_at now =
    if leb expires_at now then is_over else countdown ((expires_at - now) / 60_000)

abbrev pub no_space : String → Bool
no_space Chars.[] = true
no_space (Chars.◌∷◌ c s) = not (code c == 32 || (leb 9 (code c) && leb (code c) 13)) && no_space s

-- `/^https?:\/\/[^\s]+$/i`, of a text in lower case, letter by letter
abbrev pub strip : String → String → Option String
strip Chars.[] s = some s
strip (Chars.◌∷◌ c p) Chars.[] = none
strip (Chars.◌∷◌ c p) (Chars.◌∷◌ d s) = if code c == code d then strip p s else none

abbrev pub is_rest : Option String → Bool
is_rest none = false
is_rest (some s) = not (str_eq s "") && no_space s

unfoldable pub is_url : String → Bool
is_url s =
    let lower = to_lower_case s in
    is_rest (strip "http://" lower) || is_rest (strip "https://" lower)

pub record EvidenceUrlValidation : Type 0 where
  pub valid : List String
  pub invalid : List String

-- of the entries that are texts
unfoldable pub validate_evidence_urls : List String → EvidenceUrlValidation
unfolding is_url
validate_evidence_urls urls =
    let trimmed_urls =
      take dispute_max_evidence_urls (filter (λ u. not (str_eq u "")) (map trim urls)) in
    record {
      valid = filter is_url trimmed_urls;
      invalid = filter (λ u. not (is_url u)) trimmed_urls;
    }

-- an address that may be missing, and is not empty
abbrev pub is_target : String → Option String → Bool
is_target voter none = false
is_target voter (some t) = not (str_eq t "") && str_eq (to_lower_case voter) (to_lower_case t)

unfoldable pub can_vote_on_dispute : String → String → Option String → Bool → Bool
can_vote_on_dispute voter filer target already_voted =
    if str_eq voter "" || already_voted
    then false
    else if str_eq (to_lower_case voter) (to_lower_case filer)
    then false
    else not (is_target voter target)
