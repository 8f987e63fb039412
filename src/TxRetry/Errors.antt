-- ===== src/TxRetry/Errors.antt =====
-- The errors of a submission and their classification (frontend/lib/tx-retry.ts). The regular
-- expressions of the source are alternatives of fixed texts, tried without regard to case: here the
-- lists of these texts, searched for in the message in lower case.
use joint_save.Prelude.{
  String, Bool, true, false, Option, List, [], ◌∷◌, ◌||◌, if◌then◌else◌, any, or_else,
}
use Prim.Native.String.{◌++◌}
use joint_save.Prelude.Text.{to_lower_case}
use joint_save.Prelude.Search.{contains, contains_word}

-- what is thrown: an `Error`, of one of the source's classes or of none, or another value, as text
pub data Thrown : Type 0 where
  error retryable user account_not_found insufficient_balance auth other_value : String → Thrown

abbrev pub message_of : Thrown → String
message_of (error m) = m
message_of (retryable m) = m
message_of (user m) = m
message_of (account_not_found m) = m
message_of (insufficient_balance m) = m
message_of (auth m) = m
message_of (other_value m) = m

abbrev contains_any : List String → String → Bool
contains_any texts t = any (λ s. contains s t) texts

abbrev retriable_texts : List String
retriable_texts =
    "timeout" ∷ "timed out" ∷ "network" ∷ "fetch failed" ∷ "socket" ∷ "econn" ∷ "etimedout"
    ∷ "enotfound" ∷ "rate limit" ∷ "capacity" ∷ "throttl" ∷ "too many requests" ∷ "try again later"
    ∷ "bad_seq" ∷ "badseq" ∷ "insufficient_fee" ∷ "insufficientfee" ∷ "too_late" ∷ "toolate"
    ∷ "tx_duplicate" ∷ "duplicate" ∷ []

-- `RETRIABLE_MESSAGE_PATTERN.test(message)`; 429 and 503 stand between word boundaries
unfoldable pub is_retriable_message : String → Bool
is_retriable_message message =
    let m = to_lower_case message in
    contains_any retriable_texts m || (contains_word false "429" m || contains_word false "503" m)

abbrev account_texts : List String
account_texts = "account not found" ∷ "does not exist" ∷ "no account" ∷ []

abbrev balance_texts : List String
balance_texts = "insufficient balance" ∷ "underfunded" ∷ "insufficient funds" ∷ []

abbrev auth_texts : List String
auth_texts =
    "bad_auth" ∷ "badauth" ∷ "not authorized" ∷ "authorization" ∷ "declined" ∷ "rejected" ∷ "denied"
    ∷ "cancelled" ∷ "permission" ∷ []

-- `USER_ERROR_MESSAGE_PATTERN.test(message)`
unfoldable pub is_user_error_message : String → Bool
is_user_error_message message =
    let m = to_lower_case message in
    contains_any account_texts m
    || (contains_any balance_texts m || (contains_any auth_texts m || contains "canceled" m))

unfoldable pub is_retriable_text : String → Bool
is_retriable_text message =
    if is_user_error_message message then false else is_retriable_message message

unfoldable pub is_retriable_error : Thrown → Bool
is_retriable_error (retryable m) = true
is_retriable_error (user m) = false
is_retriable_error (account_not_found m) = false
is_retriable_error (insufficient_balance m) = false
is_retriable_error (auth m) = false
is_retriable_error (error m) = is_retriable_text m
is_retriable_error (other_value m) = is_retriable_text m

-- an error of a user class is kept as it is, any other gets the class
abbrev as_user_error : Thrown → Thrown
as_user_error (error m) = user m
as_user_error e = e

-- The tests on an `Error` that is not retryable yet; `detail` is the result that came with it, as
-- JSON text.
unfoldable pub classify_error : Thrown → String → Thrown
classify_error e detail =
    let haystack = message_of e ++ " " ++ detail in
    let h = to_lower_case haystack in
    if contains_any account_texts h
    then account_not_found (message_of e)
    else if contains_any balance_texts h
    then insufficient_balance (message_of e)
    else if contains_any auth_texts h
    then auth (message_of e)
    else if is_retriable_error e || is_retriable_text haystack
    then retryable (message_of e)
    else as_user_error e

-- `JSON.stringify(rawResult ?? "")`
abbrev pub stringified : Option String → String
stringified raw = or_else raw "\"\""

unfoldable pub classify_submission_error : Thrown → Option String → Thrown
classify_submission_error (retryable m) raw = retryable m
classify_submission_error (other_value m) raw = error m
classify_submission_error e raw = classify_error e (stringified raw)

abbrev pub is_retryable : Thrown → Bool
is_retryable (retryable m) = true
is_retryable e = false

-- a permanent failure: no further attempt follows
abbrev pub is_user_error : Thrown → Bool
is_user_error (user m) = true
is_user_error (account_not_found m) = true
is_user_error (insufficient_balance m) = true
is_user_error (auth m) = true
is_user_error e = false
