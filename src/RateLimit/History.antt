-- ===== src/RateLimit/History.antt =====
-- What the limiter promises, said of the history of the requests it let through
-- (frontend/lib/rate-limit.ts).
use joint_save.Prelude.{
  ℕ, String, Bool, List, [], ◌∷◌, ◌++◌, ◌&&◌, ◌≤◌, if◌then◌else◌, leb, length, filter, is_some,
}
use joint_save.Prelude.Text.{str_eq}
use joint_save.RateLimit.Limiter.{
  LimitedRequest, Limiter, prefix_of, max_of, window_of, resolve_key, Store, is_fresh, limiter,
}

pub record Arrival : Type 0 where
  pub at_limiter : Limiter
  pub request : LimitedRequest
  pub now : ℕ

abbrev pub key_of : Arrival → String
key_of a = resolve_key a.request (prefix_of a.at_limiter)

-- the requests let through, the oldest first
abbrev pub History : Type 0
History = List (String × ℕ)

abbrev pub in_window : String → ℕ → ℕ → String × ℕ → Bool
in_window k w now x = str_eq x.0 k && is_fresh w now x.1

abbrev pub recent : String → ℕ → ℕ → History → History
recent k w now h = filter (in_window k w now) h

-- refused where the window before it is full
abbrev pub is_refused : Arrival → History → Bool
is_refused a h =
    leb (max_of a.at_limiter) (length (recent (key_of a) (window_of a.at_limiter) a.now h))

abbrev pub note : Arrival → History → History
note a h = if is_refused a h then h else h ++ ((key_of a, a.now) ∷ [])

-- the decisions, and the history in the end
unfoldable pub ideal_run : List Arrival → History → List Bool × History
ideal_run [] h = ([], h)
ideal_run (a ∷ later) h =
    let (rest, final) = ideal_run later (note a h) in (is_refused a h ∷ rest, final)

-- the limiter's own decisions
unfoldable pub store_run : List Arrival → Store → List Bool × Store
store_run [] s = ([], s)
store_run (a ∷ later) s =
    let (answer, after) = limiter a.at_limiter a.request a.now s in
    let (rest, final) = store_run later after in (is_some answer ∷ rest, final)

-- the arrivals in the order of their times, none before `now`
abbrev pub IsTimely : ℕ → List Arrival → Type 0
IsTimely now [] = Unit
IsTimely now (a ∷ later) = (now ≤ a.now) × IsTimely a.now later
