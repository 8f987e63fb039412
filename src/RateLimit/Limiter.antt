-- ===== src/RateLimit/Limiter.antt =====
-- The sliding window (frontend/lib/rate-limit.ts) over its store of timestamps. A time is a number of
-- milliseconds, and `t > now - w` is `now < t + w`.
use joint_save.Prelude.{
  ℕ, String, Bool, Option, none, some, List, [], ◌∷◌, ◌++◌, ◌+◌, ◌-◌, ◌/◌, if◌then◌else◌, ltb, leb,
  length, filter,
}
use Prim.Native.String as Text
use joint_save.Prelude.Text.{str_eq, to_lower_case, trim, template}

-- the parts of a request that are read
pub record LimitedRequest : Type 0 where
  pub wallet_param : Option String
  pub wallet_header : Option String
  pub forwarded_for : Option String

-- the three limiters
pub data Limiter : Type 0 where
  reads writes exports : Limiter

abbrev pub prefix_of : Limiter → String
prefix_of reads = "read"
prefix_of writes = "write"
prefix_of exports = "export"

abbrev pub max_of : Limiter → ℕ
max_of reads = 30
max_of writes = 10
max_of exports = 5

abbrev pub window_of : Limiter → ℕ
window_of reads = 60_000
window_of writes = 60_000
window_of exports = 3_600_000

-- `a || b` on texts that may be missing: an empty text counts as missing
abbrev pub text_or : Option String → Option String → Option String
text_or none b = b
text_or (some a) b = if str_eq a "" then b else some a

-- `text.split(",")[0]`
unfoldable pub before_comma : String → String
before_comma Text.[] = ""
before_comma (Text.◌∷◌ c s) = if str_eq (Text.◌∷◌ c "") "," then "" else Text.◌∷◌ c (before_comma s)

abbrev pub ip_of : Option String → String
ip_of none = "unknown"
ip_of (some f) = trim (before_comma f)

-- what follows the prefix in a key
abbrev pub holder : Option String → Option String → List String
holder none forwarded = ":ip:" ∷ ip_of (text_or forwarded none) ∷ []
holder (some wallet) forwarded = ":wallet:" ∷ to_lower_case wallet ∷ []

unfoldable pub resolve_key : LimitedRequest → String → String
resolve_key r prefix =
    template
      (prefix ∷ holder (text_or (text_or r.wallet_param r.wallet_header) none) r.forwarded_for)

-- `store.get(key)` and `store.set(key, entry)`
abbrev pub Store : Type 0
Store = List (String × List ℕ)

unfoldable pub entry_of : String → Store → List ℕ
entry_of k [] = []
entry_of k ((j, stamps) ∷ s) = if str_eq j k then stamps else entry_of k s

unfoldable pub set_entry : String → List ℕ → Store → Store
set_entry k stamps [] = (k, stamps) ∷ []
set_entry k stamps ((j, old) ∷ s) =
    if str_eq j k then (k, stamps) ∷ s else (j, old) ∷ set_entry k stamps s

abbrev pub is_fresh : ℕ → ℕ → ℕ → Bool
is_fresh w now t = ltb now (t + w)

abbrev pub prune : ℕ → ℕ → List ℕ → List ℕ
prune w now stamps = filter (is_fresh w now) stamps

-- The body and the headers of the 429 answer. Nothing is stored where no request is allowed at all,
-- and then the numbers are not there.
pub record TooManyRequests : Type 0 where
  pub retry_after_sec : Option ℕ
  pub limit : ℕ
  pub reset_sec : Option ℕ

abbrev pub ceil_sec : ℕ → ℕ
ceil_sec ms = (ms + 999) / 1000

abbrev pub refusal : ℕ → ℕ → ℕ → List ℕ → TooManyRequests
refusal max w now [] = record { retry_after_sec = none; limit = max; reset_sec = none }
refusal max w now (oldest ∷ rest) = record {
  retry_after_sec = some (ceil_sec (oldest + w - now));
  limit = max;
  reset_sec = some (ceil_sec (oldest + w));
}

unfoldable pub decide_limit : String → ℕ → ℕ → ℕ → List ℕ → Store → Option TooManyRequests × Store
decide_limit key max w now stamps store =
    if leb max (length stamps)
    then (some (refusal max w now stamps), set_entry key stamps store)
    else (none, set_entry key (stamps ++ (now ∷ [])) store)

unfoldable pub apply_limit :
    LimitedRequest → String → ℕ → ℕ → ℕ → Store → Option TooManyRequests × Store
unfolding decide_limit
apply_limit r prefix max w now store =
    let key = resolve_key r prefix in
    decide_limit key max w now (prune w now (entry_of key store)) store

-- `readLimiter`, `writeLimiter` and `exportLimiter`
abbrev pub limiter : Limiter → LimitedRequest → ℕ → Store → Option TooManyRequests × Store
limiter l r now store = apply_limit r (prefix_of l) (max_of l) (window_of l) now store
