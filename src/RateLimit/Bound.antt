-- ===== src/RateLimit/Bound.antt =====
-- How much the limiter lets through in a window (frontend/lib/rate-limit.ts).
use joint_save.Prelude.{
  ℕ, String, Bool, true, false, List, [], ◌∷◌, ◌++◌, ◌&&◌, ◌+◌, ◌≡◌, ◌≤◌, refl, sym, ap, ◌∙◌,
  if◌then◌else◌, leb, ltb, length, filter, arith, eq_iff, Bool-cases, inl, inr,
}
use mathlib.Core.Path.{subst}
use mathlib.Core.List.{append-nil, append_assoc}
use joint_save.Prelude.Text.{str_eq}
use joint_save.RateLimit.Limiter.{
  LimitedRequest, Limiter, prefix_of, max_of, window_of, resolve_key,
}
use joint_save.RateLimit.History.{
  Arrival, key_of, History, in_window, recent, is_refused, note, ideal_run, store_run, IsTimely,
}
use joint_save.RateLimit.Refinement.{resolve_key-limiter, store_run-ideal_run}

-- the requests that the decisions let through
abbrev pub passed : List Arrival → List Bool → History
passed [] ds = []
passed (a ∷ later) [] = []
passed (a ∷ later) (d ∷ ds) = if d then passed later ds else (key_of a, a.now) ∷ passed later ds

-- in the window of length `w` that ends at `t`, that time included
abbrev pub at_most : String → ℕ → ℕ → String × ℕ → Bool
at_most k w t x = in_window k w t x && leb x.1 t

abbrev pub load : String → ℕ → ℕ → History → ℕ
load k w t h = length (filter (at_most k w t) h)

-- what is in a later window and was there before is in the present window
load-recent :
    (k : String) (w now t : ℕ) (h : History) → now ≤ t → load k w t h ≤ length (recent k w now h)
load-recent k w now t [] le = omega arith
load-recent k w now t (x ∷ h) le = ground (arith, load-recent k w now t h le)

load-append :
    (k j : String) (w t n : ℕ) (h : History)
    → load k w t (h ++ ((j, n) ∷ []))
      ≡ load k w t h + (if str_eq j k && (ltb t (n + w) && leb n t) then 1 else 0)
load-append k j w t n [] = ground arith
load-append k j w t n (x ∷ h) = ground (arith, load-append k j w t n h)

abbrev IsBounded : History → Type 0
IsBounded h =
    (l : Limiter) (r : LimitedRequest) (t : ℕ)
    → load (resolve_key r (prefix_of l)) (window_of l) t h ≤ max_of l

module _ (a : Arrival) (h : History) (b : IsBounded h) (room : is_refused a h ≡ false) where
  push-IsBounded : IsBounded (h ++ ((key_of a, a.now) ∷ []))
  push-IsBounded l r t =
      let k = resolve_key r (prefix_of l) in
      let w = window_of l in
      elim (Bool-cases (str_eq (key_of a) k)) [
        | inl e ↦
            let key = (eq_iff (key_of a) k).0 e in
            let same = resolve_key-limiter a.at_limiter l a.request r key in
            ground (
              arith,
              load-append k (key_of a) w t a.now h,
              load-recent k w a.now t h,
              b l r t,
              ap max_of same,
              ap (λ m. length (recent k (window_of m) a.now h)) same,
              ap (λ j. length (recent j (window_of a.at_limiter) a.now h)) key,
            )
        | inr e ↦ ground (arith, load-append k (key_of a) w t a.now h, b l r t)
      ]

note-IsBounded : (a : Arrival) (h : History) → IsBounded h → IsBounded (note a h)
note-IsBounded a h b = elim (Bool-cases (is_refused a h)) [
  | inl e ↦ subst (λ q. IsBounded (if q then h else h ++ ((key_of a, a.now) ∷ []))) (sym e) b
  | inr e ↦
      subst (λ q. IsBounded (if q then h else h ++ ((key_of a, a.now) ∷ []))) (sym e)
        (push-IsBounded a h b e)
]

ideal_run-IsBounded :
    (arrivals : List Arrival) (h : History) → IsBounded h → IsBounded (ideal_run arrivals h).1
unfolding ideal_run
ideal_run-IsBounded [] h b = b
ideal_run-IsBounded (a ∷ later) h b = ideal_run-IsBounded later (note a h) (note-IsBounded a h b)

regroup :
    (q : Bool) (x : String × ℕ) (h rest : History)
    → (if q then h else h ++ (x ∷ [])) ++ rest ≡ h ++ (if q then rest else x ∷ rest)
regroup true x h rest = refl
regroup false x h rest = append_assoc h (x ∷ []) rest

ideal_run-passed :
    (arrivals : List Arrival) (h : History)
    → (ideal_run arrivals h).1 ≡ h ++ passed arrivals (ideal_run arrivals h).0
unfolding ideal_run
ideal_run-passed [] h = sym (append-nil h)
ideal_run-passed (a ∷ later) h =
    ideal_run-passed later (note a h)
    ∙ regroup (is_refused a h) (key_of a, a.now) h (passed later (ideal_run later (note a h)).0)

-- For requests in the order of their times, each limiter lets through at most its limit of requests
-- of one key in any span of its window's length.
pub store_run-bounded :
    (arrivals : List Arrival) (l : Limiter) (r : LimitedRequest) (t : ℕ)
    → IsTimely 0 arrivals
    → load (resolve_key r (prefix_of l)) (window_of l) t (passed arrivals (store_run arrivals []).0)
      ≤ max_of l
store_run-bounded arrivals l r t o =
    subst (λ ds. load (resolve_key r (prefix_of l)) (window_of l) t (passed arrivals ds) ≤ max_of l)
      (sym (store_run-ideal_run arrivals o))
      (subst (λ h. load (resolve_key r (prefix_of l)) (window_of l) t h ≤ max_of l)
        (ideal_run-passed arrivals [])
        (ideal_run-IsBounded arrivals [] (λ m q u. omega arith) l r t))
