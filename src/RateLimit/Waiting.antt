-- ===== src/RateLimit/Waiting.antt =====
-- The wait that a refusal asks for (frontend/lib/rate-limit.ts).
use joint_save.Prelude.{
  ℕ, String, none, some, List, [], ◌∷◌, ◌++◌, ◌+◌, ◌*◌, ◌≡◌, ◌≤◌, ◌<◌, ap, ◌∙◌, length, arith,
  eq_iff, length-filter-le, length-append, Bool-cases, inl, inr,
}
use joint_save.Prelude.Text.{str_eq}
use joint_save.RateLimit.Limiter.{
  LimitedRequest, Limiter, prefix_of, max_of, window_of, resolve_key, Store, TooManyRequests,
  entry_of, set_entry, is_fresh, prune, decide_limit, apply_limit, limiter,
}
use joint_save.RateLimit.History.{Arrival, key_of, store_run}
use joint_save.RateLimit.Refinement.{entry_of-set_entry, resolve_key-limiter}

-- Once the oldest has left the window, the rest is one shorter.
expired-room :
    (w t oldest : ℕ) (rest : List ℕ)
    → oldest + w ≤ t
    → length (prune w t (oldest ∷ rest)) ≤ length rest
expired-room w t oldest rest h = ground (arith, length-filter-le (is_fresh w t) rest)

refused_wait :
    (key : String) (max w now : ℕ) (stamps : List ℕ) (s : Store) (body : TooManyRequests)
    (wait t : ℕ)
    → length stamps ≤ max
    → (decide_limit key max w now stamps s).0 ≡ some body
    → body.retry_after_sec ≡ some wait
    → now + 1000 * wait ≤ t
    → (length (prune w t stamps) < max)
      × ((decide_limit key max w now stamps s).1 ≡ set_entry key stamps s)
unfolding decide_limit
refused_wait key max w now [] s body wait t fits refused asked waited = absurd (ground arith)
refused_wait key max w now (oldest ∷ rest) s body wait t fits refused asked waited =
    ground (arith, expired-room w t oldest rest)

stored :
    (key : String) (stamps : List ℕ) (s : Store) → entry_of key (set_entry key stamps s) ≡ stamps
stored key stamps s = ground (arith, entry_of-set_entry key key stamps s, eq_iff key key)

admitted :
    (key : String) (max w now : ℕ) (stamps : List ℕ) (s : Store)
    → length stamps < max
    → (decide_limit key max w now stamps s).0 ≡ none
unfolding decide_limit
admitted key max w now stamps s h = ground arith

-- from a store whose entry for the key is within the limit
apply_limit-retry :
    (r : LimitedRequest) (prefix : String) (max w now : ℕ) (s : Store) (body : TooManyRequests)
    (wait t : ℕ)
    → length (entry_of (resolve_key r prefix) s) ≤ max
    → (apply_limit r prefix max w now s).0 ≡ some body
    → body.retry_after_sec ≡ some wait
    → now + 1000 * wait ≤ t
    → (apply_limit r prefix max w t (apply_limit r prefix max w now s).1).0 ≡ none
unfolding apply_limit
apply_limit-retry r prefix max w now s body wait t fits refused asked waited =
    let key = resolve_key r prefix in
    let stamps = prune w now (entry_of key s) in
    let kept = length-filter-le (is_fresh w now) (entry_of key s) in
    let (room, after) =
      refused_wait key max w now stamps s body wait t (omega arith) refused asked waited in
    let next = (decide_limit key max w now stamps s).1 in
    let held = ap (entry_of key) after ∙ stored key stamps s in
    admitted key max w t (prune w t (entry_of key next)) next
      (omega (arith, ap (λ xs. length (prune w t xs)) held))

-- No entry of a limiter's key is longer than its limit.
abbrev IsWithin : Store → Type 0
IsWithin s =
    (l : Limiter) (r : LimitedRequest)
    → length (entry_of (resolve_key r (prefix_of l)) s) ≤ max_of l

limiter-IsWithin :
    (a : Arrival) (s : Store) → IsWithin s → IsWithin (limiter a.at_limiter a.request a.now s).1
unfolding apply_limit
limiter-IsWithin a s h l r =
    let k = resolve_key r (prefix_of l) in
    let w = window_of a.at_limiter in
    let kept = prune w a.now (entry_of (key_of a) s) in
    let shorter = length-filter-le (is_fresh w a.now) (entry_of (key_of a) s) in
    let held = entry_of-set_entry k (key_of a) kept s in
    let pushed = entry_of-set_entry k (key_of a) (kept ++ (a.now ∷ [])) s in
    let longer = length-append kept (a.now ∷ []) in
    elim (Bool-cases (str_eq (key_of a) k)) [
      | inl e ↦
          let same = resolve_key-limiter a.at_limiter l a.request r ((eq_iff _ _).0 e) in
          ground (arith, shorter, held, pushed, longer, ap max_of same, h a.at_limiter a.request, e)
      | inr e ↦ ground (arith, held, pushed, h l r, e)
    ]

store_run-IsWithin :
    (arrivals : List Arrival) (s : Store) → IsWithin s → IsWithin (store_run arrivals s).1
unfolding store_run
store_run-IsWithin [] s h = h
store_run-IsWithin (a ∷ later) s h =
    store_run-IsWithin later (limiter a.at_limiter a.request a.now s).1 (limiter-IsWithin a s h)

-- After any sequence of requests from the empty store, a request that a limiter refuses comes
-- through if it is made again, and no other in between, once the seconds have gone by that the
-- refusal asks it to wait.
pub limiter-retry :
    (arrivals : List Arrival) (l : Limiter) (r : LimitedRequest) (now : ℕ) (body : TooManyRequests)
    (wait t : ℕ)
    → (limiter l r now (store_run arrivals []).1).0 ≡ some body
    → body.retry_after_sec ≡ some wait
    → now + 1000 * wait ≤ t
    → (limiter l r t (limiter l r now (store_run arrivals []).1).1).0 ≡ none
unfolding entry_of
limiter-retry arrivals l r now body wait t refused asked waited =
    apply_limit-retry r (prefix_of l) (max_of l) (window_of l) now (store_run arrivals []).1 body
      wait t (store_run-IsWithin arrivals [] (λ m q. omega arith) l r) refused asked waited
