-- ===== src/Recovery/Lookup.antt =====
-- `lookupTransaction` (sdk/src/recovery/lookup.ts). The answers of the server, with the parts that the
-- Stellar SDK decodes, and the clock are parameters: a `Poll` for each round of the loop.
use joint_save.Prelude.{
  ℕ, zero, suc, String, Bool, true, false, not, ◌||◌, Option, none, some, ◌-◌, min, or_else,
  if◌then◌else◌, leb, ◌==◌,
}
use joint_save.Prelude.Text.{str_eq}
use joint_save.Recovery.Errors.{Failure, thrown_object, message_of, is_retryable}

pub data TxLookupState : Type 0 where
  pending success failed not_found timeout : TxLookupState

pub record TxLookup : Type 0 where
  pub state : TxLookupState
  pub ledger : Option ℕ
  pub result_code : Option String
  pub contract_error : Option String
  pub error : Option String

-- what `getTransaction` gives
pub data LookupAnswer : Type 0 where
  succeeded : ℕ → LookupAnswer
  has_failed : ℕ → Option String → Option String → LookupAnswer
  unknown : LookupAnswer
  throws : Failure → LookupAnswer

-- an answer, and the milliseconds since the start when a failure is caught and when the round ends
pub record Poll : Type 0 where
  pub answer : LookupAnswer
  pub caught_at : ℕ
  pub elapsed : ℕ

abbrev pub bare : TxLookupState → TxLookup
bare s = record {
  state = s;
  ledger = none;
  result_code = none;
  contract_error = none;
  error = none;
}

-- the message of an `Error` or a text, redacted, unless it is empty
abbrev pub error_text : (String → String) → Option String → Option String
error_text redact none = none
error_text redact (some m) = if str_eq m "" then none else some (redact m)

abbrev pub timeout_lookup : (String → String) → Option Failure → TxLookup
timeout_lookup redact none = bare timeout
timeout_lookup redact (some (thrown_object m c)) = bare timeout
timeout_lookup redact (some e) = record (bare timeout) { error = error_text redact (message_of e) }

-- where a round leaves the loop, or what it has seen
pub data Round : Type 0 where
  stop : TxLookup → Round
  go_on : Bool → Option Failure → Round

-- the end of a round, after its answer
abbrev pub end_round : (String → String) → ℕ → Poll → Bool → Option Failure → Round
end_round redact timeout_ms p saw last =
    if leb timeout_ms p.elapsed
    then stop (if saw then bare pending else timeout_lookup redact last)
    else go_on saw last

abbrev pub answer_round :
    (String → String) → ℕ → Poll → Bool → Option Failure → LookupAnswer → Round
answer_round redact timeout_ms p saw last (succeeded n) =
    stop (record (bare success) { ledger = some n })
answer_round redact timeout_ms p saw last (has_failed n code why) =
    stop (record (bare failed) { ledger = some n; result_code = code; contract_error = why })
answer_round redact timeout_ms p saw last unknown =
    if timeout_ms == 0 then stop (bare not_found) else end_round redact timeout_ms p true last
answer_round redact timeout_ms p saw last (throws e) =
    if not (is_retryable e) || leb timeout_ms p.caught_at
    then stop (timeout_lookup redact (some e))
    else end_round redact timeout_ms p saw (some e)

unfoldable pub poll_round : (String → String) → ℕ → Poll → Bool → Option Failure → Round
poll_round redact timeout_ms p saw last = answer_round redact timeout_ms p saw last p.answer

-- how long is slept after a round
abbrev pub nap : ℕ → ℕ → ℕ → ℕ
nap timeout_ms interval elapsed = min interval (timeout_ms - elapsed)

-- the loop goes on with the next round
abbrev pub follow : Round → (Bool → Option Failure → Option TxLookup) → Option TxLookup
follow (stop r) rest = some r
follow (go_on saw last) rest = rest saw last

-- `none` where the fuel ran out
unfoldable pub poll_from :
    ℕ → (String → String) → ℕ → (ℕ → Poll) → ℕ → Bool → Option Failure → Option TxLookup
poll_from zero redact timeout_ms polls i saw last = none
poll_from (suc fuel) redact timeout_ms polls i saw last =
    follow (poll_round redact timeout_ms (polls i) saw last)
      (λ saw' last'. poll_from fuel redact timeout_ms polls (suc i) saw' last')

-- the options' `timeoutMs` and its default
unfoldable pub lookup_transaction : ℕ → (String → String) → Option ℕ → (ℕ → Poll) → Option TxLookup
lookup_transaction fuel redact timeout_ms polls =
    poll_from fuel redact (or_else timeout_ms 30_000) polls 0 false none
