-- ===== src/RateLimit/Refinement.antt =====
-- The store of timestamps decides as the history does (frontend/lib/rate-limit.ts).
use joint_save.Prelude.{
  ℕ, String, Bool, true, false, Option, none, List, [], ◌∷◌, ◌++◌, ◌≡◌, ◌≤◌, refl, sym, ap, ◌∙◌,
  if◌then◌else◌, length, map, is_some, arith, eq_iff, Bool-cases, inl, inr, filter-append,
  filter-filter,
}
use Prim.Native.String as Text
use Prim.Native.Char.{Char, code}
use text.Mathlib.TextLemmas.{cons-append}
use joint_save.Prelude.Text.{str_eq, template}
use joint_save.RateLimit.Limiter.{
  LimitedRequest, Limiter, reads, writes, exports, prefix_of, window_of, holder, text_or,
  resolve_key, Store, entry_of, set_entry, is_fresh, prune, TooManyRequests, apply_limit, limiter,
}
use joint_save.RateLimit.History.{
  Arrival, key_of, History, recent, is_refused, note, ideal_run, store_run, IsTimely,
}

pub entry_of-set_entry :
    (k j : String) (v : List ℕ) (s : Store)
    → entry_of k (set_entry j v s) ≡ (if str_eq j k then v else entry_of k s)
unfolding entry_of set_entry
entry_of-set_entry k j v [] = refl
entry_of-set_entry k j v ((i, old) ∷ s) =
    ground (arith, entry_of-set_entry k j v s, eq_iff i j, eq_iff i k, eq_iff j k)

head_code : String → ℕ
head_code Text.[] = 0
head_code (Text.◌∷◌ c s) = code c

head_code-append : (c : Char) (s t : String) → head_code (Text.◌++◌ (Text.◌∷◌ c s) t) ≡ code c
unfolding head_code
head_code-append c s t = ap head_code (cons-append c s t)

prefix-head :
    (l : Limiter) (rest : List String)
    → head_code (template (prefix_of l ∷ rest)) ≡ head_code (prefix_of l)
unfolding head_code
prefix-head reads rest = head_code-append "r" "ead" (template rest)
prefix-head writes rest = head_code-append "w" "rite" (template rest)
prefix-head exports rest = head_code-append "e" "xport" (template rest)

-- No two limiters share a key.
prefix-inj : (l m : Limiter) → head_code (prefix_of l) ≡ head_code (prefix_of m) → l ≡ m
unfolding head_code
prefix-inj reads reads h = refl
prefix-inj reads writes h = absurd (omega arith)
prefix-inj reads exports h = absurd (omega arith)
prefix-inj writes reads h = absurd (omega arith)
prefix-inj writes writes h = refl
prefix-inj writes exports h = absurd (omega arith)
prefix-inj exports reads h = absurd (omega arith)
prefix-inj exports writes h = absurd (omega arith)
prefix-inj exports exports h = refl

wallet_of : LimitedRequest → Option String
wallet_of r = text_or (text_or r.wallet_param r.wallet_header) none

pub resolve_key-limiter :
    (l m : Limiter) (r q : LimitedRequest)
    → resolve_key r (prefix_of l) ≡ resolve_key q (prefix_of m)
    → l ≡ m
unfolding resolve_key wallet_of
resolve_key-limiter l m r q e = prefix-inj l m (
    sym (prefix-head l (holder (wallet_of r) r.forwarded_for))
    ∙ ap head_code e
    ∙ prefix-head m (holder (wallet_of q) q.forwarded_for))

prune-prune : (w now t : ℕ) (xs : List ℕ) → now ≤ t → prune w t (prune w now xs) ≡ prune w t xs
prune-prune w now t xs h =
    filter-filter (is_fresh w t) (is_fresh w now) (is_fresh w t) xs (λ x. ground arith)

-- the times of the requests in the window
abbrev stamps_of : String → ℕ → ℕ → History → List ℕ
stamps_of k w now h = map (λ x. x.1) (recent k w now h)

stamps_of-append :
    (k j : String) (w t n : ℕ) (h : History)
    → stamps_of k w t (h ++ ((j, n) ∷ []))
      ≡ (if str_eq j k then stamps_of k w t h ++ prune w t (n ∷ []) else stamps_of k w t h)
stamps_of-append k j w t n [] = ground arith
stamps_of-append k j w t n (x ∷ h) = ground (arith, stamps_of-append k j w t n h)

length-stamps_of :
    (k : String) (w t : ℕ) (h : History) → length (stamps_of k w t h) ≡ length (recent k w t h)
length-stamps_of k w t [] = refl
length-stamps_of k w t (x ∷ h) = ground (arith, length-stamps_of k w t h)

-- From `now` on, the store holds for every key the times that the history has in its window.
abbrev Tracks : ℕ → Store → History → Type 0
Tracks now s h =
    (l : Limiter) (r : LimitedRequest) (t : ℕ)
    → now ≤ t
    → prune (window_of l) t (entry_of (resolve_key r (prefix_of l)) s)
      ≡ stamps_of (resolve_key r (prefix_of l)) (window_of l) t h

module _ (a : Arrival) (now : ℕ) (s : Store) (h : History) (later : now ≤ a.now)
    (t : Tracks now s h) where
  -- what pruning leaves of the entry
  abbrev kept : List ℕ
  kept = prune (window_of a.at_limiter) a.now (entry_of (key_of a) s)

  kept-stamps_of : kept ≡ stamps_of (key_of a) (window_of a.at_limiter) a.now h
  kept-stamps_of = t a.at_limiter a.request a.now later

  abbrev decided : Option TooManyRequests × Store
  decided = limiter a.at_limiter a.request a.now s

  answer-is_refused : is_some decided.0 ≡ is_refused a h
  unfolding apply_limit
  answer-is_refused = ground (
    arith,
    ap length kept-stamps_of,
    length-stamps_of (key_of a) (window_of a.at_limiter) a.now h,
  )

  -- the entries after the decision
  entry_of-decided :
      (k : String)
      → entry_of k decided.1 ≡ (
          if str_eq (key_of a) k
          then if is_refused a h then kept else kept ++ (a.now ∷ [])
          else entry_of k s)
  unfolding apply_limit
  entry_of-decided k =
      let refused = answer-is_refused in
      ground (
        arith,
        entry_of-set_entry k (key_of a) kept s,
        entry_of-set_entry k (key_of a) (kept ++ (a.now ∷ [])) s,
        ap length kept-stamps_of,
        length-stamps_of (key_of a) (window_of a.at_limiter) a.now h,
      )

  key_window :
      (l : Limiter) (r : LimitedRequest)
      → str_eq (key_of a) (resolve_key r (prefix_of l)) ≡ true
      → window_of l ≡ window_of a.at_limiter
  key_window l r e =
      ap window_of (sym (resolve_key-limiter a.at_limiter l a.request r ((eq_iff _ _).0 e)))

  kept_later :
      (k : String) (w u : ℕ)
      → w ≡ window_of a.at_limiter
      → key_of a ≡ k
      → a.now ≤ u
      → prune w u kept ≡ prune w u (entry_of k s)
  kept_later k w u same e le =
      ap (λ v. prune v u kept) same
      ∙ prune-prune (window_of a.at_limiter) a.now u (entry_of (key_of a) s) le
      ∙ ap (λ v. prune v u (entry_of (key_of a) s)) (sym same)
      ∙ ap (λ j. prune w u (entry_of j s)) e

  -- one decision keeps the store and the history together
  decided-Tracks : Tracks a.now decided.1 (note a h)
  decided-Tracks l r u le =
      let k = resolve_key r (prefix_of l) in
      let w = window_of l in
      let pushed = kept ++ (a.now ∷ []) in
      let held = t l r u (omega arith) in
      let ours = λ (p : Bool).
        prune w u (if p then if is_refused a h then kept else pushed else entry_of k s) in
      let theirs = λ (q : Bool). stamps_of k w u (if q then h else h ++ ((key_of a, a.now) ∷ [])) in
      let entry = ap (prune w u) (entry_of-decided k) in
      let noted = λ (p : Bool) (e : str_eq (key_of a) k ≡ p).
        stamps_of-append k (key_of a) w u a.now h
        ∙ ap (λ b. if b then stamps_of k w u h ++ prune w u (a.now ∷ []) else stamps_of k w u h)
            e in
      elim (Bool-cases (str_eq (key_of a) k)) [
        | inl e ↦
            let same = kept_later k w u (key_window l r e) ((eq_iff (key_of a) k).0 e) le ∙ held in
            let chosen = λ (q : Bool). prune w u (if q then kept else pushed) in
            entry ∙ ap ours e ∙ elim (Bool-cases (is_refused a h)) [
              | inl f ↦ ap chosen f ∙ same ∙ sym (ap theirs f)
              | inr f ↦
                  ap chosen f
                  ∙ filter-append (is_fresh w u) kept (a.now ∷ [])
                  ∙ ap (λ xs. xs ++ prune w u (a.now ∷ [])) same
                  ∙ sym (noted true e)
                  ∙ sym (ap theirs f)
            ]
        | inr e ↦ entry ∙ ap ours e ∙ held ∙ elim (Bool-cases (is_refused a h)) [
          | inl f ↦ sym (ap theirs f)
          | inr f ↦ sym (noted false e) ∙ sym (ap theirs f)
        ]
      ]

pub store_run-Tracks :
    (arrivals : List Arrival) (now : ℕ) (s : Store) (h : History)
    → IsTimely now arrivals
    → Tracks now s h
    → (store_run arrivals s).0 ≡ (ideal_run arrivals h).0
unfolding store_run ideal_run
store_run-Tracks [] now s h o t = refl
store_run-Tracks (a ∷ rest) now s h (le, o) t = ground (
  arith,
  answer-is_refused a now s h le t,
  store_run-Tracks rest a.now (decided a now s h le t).1 (note a h) o
      (decided-Tracks a now s h le t),
)

-- For requests in the order of their times, the limiter refuses exactly those that the ideal limiter
-- does: the one that keeps the whole history of what it let through, and refuses a request where the
-- window before it has as many requests with its key as the limit allows.
pub store_run-ideal_run :
    (arrivals : List Arrival)
    → IsTimely 0 arrivals
    → (store_run arrivals []).0 ≡ (ideal_run arrivals []).0
unfolding entry_of
store_run-ideal_run arrivals o = store_run-Tracks arrivals 0 [] [] o (λ l r t le. refl)
