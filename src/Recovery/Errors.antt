-- ===== src/Recovery/Errors.antt =====
-- Which failures of the SDK may be retried (sdk/src/recovery/retry.ts, sdk/src/errors.ts). The
-- patterns are alternatives of fixed texts, searched for in the message in lower case; numbers stand
-- between word boundaries.
use joint_save.Prelude.{
  String, Bool, true, false, not, Option, none, some, List, [], ◌∷◌, ◌||◌, if◌then◌else◌, any,
  or_else,
}
use joint_save.Prelude.Text.{str_eq, to_lower_case, trim, template}
use joint_save.Prelude.Search.{contains, contains_word}

pub data JointSaveErrorCode : Type 0 where
  missing_contract invalid_argument unsupported account_error simulation_failed : JointSaveErrorCode
  sign_failed submit_failed timed_out decode_failed rpc_error : JointSaveErrorCode

-- What is thrown, with `messageOf` of it and of its cause: a `JointSaveError`, another `Error` or a
-- text, or any other value.
pub data Failure : Type 0 where
  joint_save_error : JointSaveErrorCode → String → Option String → Failure
  other : Option String → Option String → Failure
  thrown_object : Option String → Option String → Failure

abbrev pub message_of : Failure → Option String
message_of (joint_save_error code message cause) = some message
message_of (other message cause) = message
message_of (thrown_object message cause) = message

abbrev pub cause_of : Failure → Option String
cause_of (joint_save_error code message cause) = cause
cause_of (other message cause) = cause
cause_of (thrown_object message cause) = cause

abbrev deterministic_patterns : List String
deterministic_patterns =
    "txtoolate" ∷ "txbadauth" ∷ "txmalformed" ∷ "txnoaccount" ∷ "txmissingoperation"
    ∷ "txbadsponsorship" ∷ "insufficient balance" ∷ "insufficient funds" ∷ "would fail"
    ∷ "user rejected" ∷ "user denied" ∷ "user cancel" ∷ "unauthorised" ∷ "unauthorized"
    ∷ "not authorized" ∷ "invalid" ∷ "not found" ∷ "rejected" ∷ "contract error" ∷ "error(contract"
    ∷ "host error" ∷ "panicked" ∷ "assert" ∷ "simulation failed" ∷ []

abbrev transient_patterns : List String
transient_patterns =
    "txbadseq" ∷ "txinsufficientfee" ∷ "txinternalerror" ∷ "try_again_later" ∷ "econnreset"
    ∷ "etimedout" ∷ "epipe" ∷ "eai_again" ∷ "socket hang up" ∷ "fetch failed" ∷ "network error"
    ∷ "network request" ∷ "network failure" ∷ "timeout" ∷ "timed out" ∷ "rate limit"
    ∷ "too many requests" ∷ "service unavailable" ∷ "temporarily unavailable" ∷ "connection reset"
    ∷ "connection closed" ∷ "connection refused" ∷ "no response" ∷ []

abbrev transient_numbers : List String
transient_numbers = "429" ∷ "502" ∷ "503" ∷ "504" ∷ []

abbrev contains_any : List String → String → Bool
contains_any texts t = any (λ s. contains s t) texts

-- `matches(DETERMINISTIC_PATTERNS, text)` and `matches(TRANSIENT_PATTERNS, text)`
unfoldable pub is_deterministic : Option String → Bool
is_deterministic none = false
is_deterministic (some text) = contains_any deterministic_patterns (to_lower_case text)

unfoldable pub is_transient : Option String → Bool
is_transient none = false
is_transient (some text) =
    let t = to_lower_case text in
    contains_any transient_patterns t || any (λ n. contains_word false n t) transient_numbers

abbrev pub is_transient_text : Option String → Bool
is_transient_text text = if is_deterministic text then false else is_transient text

abbrev pub either_transient : Option String → Option String → Bool
either_transient a b = is_transient_text a || is_transient_text b

-- by the code of a `JointSaveError`
abbrev pub retryable_code : JointSaveErrorCode → Option String → Option String → Bool
retryable_code invalid_argument m c = false
retryable_code unsupported m c = false
retryable_code missing_contract m c = false
retryable_code sign_failed m c = false
retryable_code decode_failed m c = false
retryable_code account_error m c = either_transient m c
retryable_code timed_out m c = true
retryable_code simulation_failed m c = either_transient m c
retryable_code rpc_error m c =
    if either_transient m c then true else not (is_deterministic m || is_deterministic c)
retryable_code submit_failed m c =
    if either_transient m c then true else not (is_deterministic m || is_deterministic c)

unfoldable pub is_retryable : Failure → Bool
is_retryable (joint_save_error code message cause) = retryable_code code (some message) cause
is_retryable (other message cause) = is_transient_text message
is_retryable (thrown_object message cause) = is_transient_text message

abbrev unsent_patterns : List String
unsent_patterns =
    "econnrefused" ∷ "enotfound" ∷ "eai_again" ∷ "dns" ∷ "txtoolate" ∷ "txbadauth" ∷ "txbadseq"
    ∷ "txinsufficientfee" ∷ "txmalformed" ∷ "txnoaccount" ∷ "user rejected" ∷ "user denied"
    ∷ "user cancel" ∷ "sign failed" ∷ "sign rejected" ∷ "signing failed" ∷ "signing rejected"
    ∷ "try_again_later" ∷ []

abbrev lost_patterns : List String
lost_patterns =
    "timeout" ∷ "timed out" ∷ "econnreset" ∷ "epipe" ∷ "socket hang up" ∷ "fetch failed" ∷ "network"
    ∷ "connection reset" ∷ "connection closed" ∷ "no response" ∷ []

-- the text of the error and of its cause, with a blank between
abbrev pub joined_text : Failure → String
joined_text e = trim (template (or_else (message_of e) "" ∷ " " ∷ or_else (cause_of e) "" ∷ []))

abbrev pub text_reached : String → Bool
text_reached text =
    let t = to_lower_case text in
    if str_eq text ""
    then false
    else if contains_any unsent_patterns t
    then false
    else contains_any lost_patterns t

abbrev pub is_timed_out : Failure → Bool
is_timed_out (joint_save_error timed_out m c) = true
is_timed_out e = false

unfoldable pub may_have_reached_server : Failure → Bool
may_have_reached_server e = if is_timed_out e then true else text_reached (joined_text e)
