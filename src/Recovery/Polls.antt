-- ===== src/Recovery/Polls.antt =====
-- A lookup ends, and what it reports (sdk/src/recovery/lookup.ts).
use joint_save.Prelude.{
  ℕ, zero, suc, String, Bool, true, false, not, ◌||◌, Option, none, some, ◌+◌, ◌*◌, ◌/◌, or_else,
  if◌then◌else◌, leb, ◌==◌, ◌≡◌, ◌≤◌, ◌⊎◌, inl, inr, refl, sym, ap, ◌∙◌, arith, Bool-cases, leb→le,
  ==_iff,
}
use mathlib.Core.Path.{subst}
use native.Mathlib.Nat.{lt-div-mul-add}
use joint_save.Recovery.Errors.{Failure, is_retryable}
use joint_save.Recovery.Lookup.{
  pending, success, failed, not_found, TxLookup, LookupAnswer, succeeded, has_failed, unknown,
  throws, Poll, bare, timeout_lookup, Round, stop, go_on, end_round, answer_round, poll_round, nap,
  follow, poll_from, lookup_transaction,
}

-- an answer that settles nothing
abbrev pub Open : LookupAnswer → Type 0
Open (succeeded n) = ⊥
Open (has_failed n code why) = ⊥
Open unknown = Unit
Open (throws e) = is_retryable e ≡ true

abbrev pub is_unknown : LookupAnswer → Bool
is_unknown unknown = true
is_unknown _ = false

-- the `n` rounds from `i` on settled nothing
abbrev pub AllOpen : (ℕ → Poll) → ℕ → ℕ → Type 0
AllOpen polls i zero = Unit
AllOpen polls i (suc n) = Open (polls i).answer × AllOpen polls (suc i) n

-- whether one of them said that the transaction is not known
abbrev pub seen : (ℕ → Poll) → ℕ → ℕ → Bool
seen polls i zero = false
seen polls i (suc n) = is_unknown (polls i).answer || seen polls (suc i) n

-- Why a lookup that stops after the round `p` reports `r`, where `saw` tells whether the transaction
-- was not known in an earlier round.
pub data Explains (redact : String → String) (timeout_ms : ℕ) (p : Poll) (saw : Bool) (r : TxLookup)
    : Type 0 where
  told_success :
      (n : ℕ)
      → p.answer ≡ succeeded n
      → r ≡ record (bare success) { ledger = some n }
      → Explains redact timeout_ms p saw r
  told_failure :
      (n : ℕ) (code why : Option String)
      → p.answer ≡ has_failed n code why
      → r ≡ record (bare failed) { ledger = some n; result_code = code; contract_error = why }
      → Explains redact timeout_ms p saw r
  told_not_found :
      p.answer ≡ unknown → timeout_ms ≡ 0 → r ≡ bare not_found → Explains redact timeout_ms p saw r
  told_pending :
      timeout_ms ≤ p.elapsed
      → (is_unknown p.answer || saw) ≡ true
      → r ≡ bare pending
      → Explains redact timeout_ms p saw r
  told_timeout :
      (e : Failure)
      → p.answer ≡ throws e
      → (is_retryable e ≡ false)
        ⊎ (timeout_ms ≤ p.caught_at)
        ⊎ ((timeout_ms ≤ p.elapsed) × (saw ≡ false))
      → r ≡ timeout_lookup redact (some e)
      → Explains redact timeout_ms p saw r

module _ (redact : String → String) (timeout_ms : ℕ) (p : Poll) (saw : Bool)
    (last : Option Failure) where
  -- what a round comes to
  abbrev Fate : Round → Type 0
  Fate (stop r) = Explains redact timeout_ms p saw r
  Fate (go_on saw' last') =
      Open p.answer × (saw' ≡ (is_unknown p.answer || saw)) × (suc p.elapsed ≤ timeout_ms)

  pending-Fate :
      (now : Bool) (l : Option Failure)
      → now ≡ (is_unknown p.answer || saw)
      → timeout_ms ≤ p.elapsed
      → (now ≡ false → Explains redact timeout_ms p saw (timeout_lookup redact l))
      → Fate (stop (if now then bare pending else timeout_lookup redact l))
  pending-Fate true l e late timed = told_pending late (sym e) refl
  pending-Fate false l e late timed = timed refl

  end-Fate :
      (now : Bool) (l : Option Failure)
      → now ≡ (is_unknown p.answer || saw)
      → Open p.answer
      → (timeout_ms ≤ p.elapsed
          → now ≡ false
          → Explains redact timeout_ms p saw (timeout_lookup redact l))
      → Fate (end_round redact timeout_ms p now l)
  end-Fate now l e free timed = elim (Bool-cases (leb timeout_ms p.elapsed)) [
    | inl late ↦
        let past = leb→le timeout_ms p.elapsed late in
        subst (λ t. Fate (if t then ended else go_on now l)) (sym late)
          (pending-Fate now l e past (timed past))
    | inr early ↦
        subst (λ t. Fate (if t then ended else go_on now l)) (sym early) (free, e, ground arith)
  ]
    where
      ended : Round
      ended = stop (if now then bare pending else timeout_lookup redact l)

  why_out :
      (e : Failure)
      → (not (is_retryable e) || leb timeout_ms p.caught_at) ≡ true
      → (is_retryable e ≡ false)
        ⊎ (timeout_ms ≤ p.caught_at)
        ⊎ ((timeout_ms ≤ p.elapsed) × (saw ≡ false))
  why_out e out = elim (Bool-cases (is_retryable e)) [
    | inl again ↦ inr (inl (ground arith))
    | inr never ↦ inl never
  ]

  round-Fate :
      (a : LookupAnswer) → p.answer ≡ a → Fate (answer_round redact timeout_ms p saw last a)
  round-Fate (succeeded n) h = told_success n h refl
  round-Fate (has_failed n code why) h = told_failure n code why h refl
  round-Fate unknown h = elim (Bool-cases (timeout_ms == 0)) [
    | inl z ↦
        subst (λ t. Fate (if t then stop (bare not_found) else on)) (sym z)
          (told_not_found h ((==_iff timeout_ms 0).0 z) refl)
    | inr nz ↦
        subst (λ t. Fate (if t then stop (bare not_found) else on)) (sym nz)
          (end-Fate true last (ap (λ a. is_unknown a || saw) (sym h)) (subst Open (sym h) tt)
            (λ late never. absurd (cc never)))
  ]
    where
      on : Round
      on = end_round redact timeout_ms p true last
  round-Fate (throws e) h = elim (Bool-cases (not (is_retryable e) || leb timeout_ms p.caught_at)) [
    | inl out ↦
        subst (λ t. Fate (if t then stop (timeout_lookup redact (some e)) else on)) (sym out)
          (told_timeout e h (why_out e out) refl)
    | inr again ↦
        subst (λ t. Fate (if t then stop (timeout_lookup redact (some e)) else on)) (sym again)
          (end-Fate saw (some e) (ap (λ a. is_unknown a || saw) (sym h))
            (subst Open (sym h) (ground arith))
            (λ late never. told_timeout e h (inr (inr (late, never))) refl))
  ]
    where
      on : Round
      on = end_round redact timeout_ms p saw (some e)

or_shuffle : (u s w : Bool) → (s || (u || w)) ≡ ((u || s) || w)
or_shuffle true true w = refl
or_shuffle true false w = refl
or_shuffle false true w = refl
or_shuffle false false w = refl

module _ (redact : String → String) (timeout_ms interval : ℕ) (polls : ℕ → Poll) where
  -- a report after some rounds that settled nothing, counted from round `i`
  abbrev pub Reported : ℕ → Bool → Option TxLookup → Type 0
  Reported i saw got =
      (r : TxLookup) × (n : ℕ) × (got ≡ some r)
      × AllOpen polls i n
      × Explains redact timeout_ms (polls (i + n)) (seen polls i n || saw) r

  one_more :
      (i : ℕ) (saw saw' : Bool) (got : Option TxLookup)
      → Open (polls i).answer
      → saw' ≡ (is_unknown (polls i).answer || saw)
      → Reported (suc i) saw' got
      → Reported i saw got
  one_more i saw saw' got free e (r, n, told, all, why) = (
    r,
    suc n,
    told,
    (free, all),
    subst (λ b. Explains redact timeout_ms (polls (i + suc n)) b r)
        (ap (λ t. seen polls (suc i) n || t) e
          ∙ or_shuffle (is_unknown (polls i).answer) (seen polls (suc i) n) saw)
        (subst (λ j. Explains redact timeout_ms (polls j) (seen polls (suc i) n || saw') r)
          (omega arith) why),
  )

  round-Reported :
      (i : ℕ) (saw : Bool) (last : Option Failure) (x : Round)
      (rest : Bool → Option Failure → Option TxLookup)
      → Fate redact timeout_ms (polls i) saw last x
      → ((s : Bool) (l : Option Failure)
          → suc (polls i).elapsed ≤ timeout_ms
          → Reported (suc i) s (rest s l))
      → Reported i saw (follow x rest)
  round-Reported i saw last (stop r) rest why more =
      (r, 0, refl, tt, subst (λ j. Explains redact timeout_ms (polls j) saw r) (omega arith) why)
  round-Reported i saw last (go_on s l) rest (free, e, early) more =
      one_more i saw s (rest s l) free e (more s l early)

  module _
      (clock : (i : ℕ)
        → (polls i).elapsed + nap timeout_ms interval (polls i).elapsed
          ≤ (polls (suc i)).elapsed) where
    poll_from-Reported :
        (left i : ℕ) (saw : Bool) (last : Option Failure)
        → timeout_ms ≤ (polls i).elapsed + left * interval
        → Reported i saw (poll_from (suc left) redact timeout_ms polls i saw last)
    unfolding poll_from poll_round
    poll_from-Reported zero i saw last enough =
        round-Reported i saw last _ _
          (round-Fate redact timeout_ms (polls i) saw last (polls i).answer refl)
          (λ s l early. absurd (omega arith))
    poll_from-Reported (suc left) i saw last enough =
        round-Reported i saw last _ _
          (round-Fate redact timeout_ms (polls i) saw last (polls i).answer refl)
          (λ s l early. poll_from-Reported left (suc i) s l (grind (arith, clock i)))

-- Where sleeping takes the time asked for, and the poll interval is not zero, a lookup ends within
-- `timeout / interval + 2` checks, and says why: success and failure are the network's answer, made
-- after answers that settled nothing; not found is the answer to a single check; pending means that the
-- time was over and some check did not know the transaction; timeout is the last failure, which may
-- not be retried, or was caught when the time was over, or ended it with no check answered.
pub lookup_transaction-Reported :
    (redact : String → String) (timeout_ms : Option ℕ) (interval : ℕ) (polls : ℕ → Poll)
    → 1 ≤ interval
    → ((i : ℕ)
        → (polls i).elapsed + nap (or_else timeout_ms 30_000) interval (polls i).elapsed
          ≤ (polls (suc i)).elapsed)
    → Reported redact (or_else timeout_ms 30_000) interval polls 0 false (
        lookup_transaction
          (suc (suc (or_else timeout_ms 30_000 / interval)))
          redact
          timeout_ms
          polls)
unfolding lookup_transaction
lookup_transaction-Reported redact timeout_ms interval polls positive clock =
    let t = or_else timeout_ms 30_000 in
    poll_from-Reported redact t interval polls clock (suc (t / interval)) 0 false none
      (grind (arith, lt-div-mul-add {a = t} {b = interval}))
