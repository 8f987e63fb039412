-- ===== src/BatchDeposit/Order.antt =====
-- The order of the pools that are offered (sortByUrgency of frontend/lib/batch-deposit.ts).
use joint_save.Prelude.{
  ℕ, zero, suc, String, Bool, true, false, Option, none, some, List, ◌≡◌, ◌≤◌, arith, if◌then◌else◌,
  ltb, min,
}
use joint_save.Prelude.Sort.{sum_by, sum_by-sort_by, IsSortedBy, Respects, sort_by-IsSortedBy}
use joint_save.BatchDeposit.Pools.{
  BatchDepositPool, deposit_urgency, urgency_order, urgency_before, deadline_before,
  sort_by_urgency,
}

-- how long until a pool is due, within a horizon; a pool without a deadline is due after it
abbrev pub due_within : ℕ → Option ℕ → ℕ
due_within h none = h
due_within h (some zero) = h
due_within h (some (suc d)) = min h (suc d)

module _ (before_name : String → String → Bool) (now : ℕ) where
  urgency-Respects-order :
      Respects
        (urgency_before before_name now)
        (λ p. urgency_order (deposit_urgency p.deadline now))
  urgency-Respects-order = record { yes_le = λ a b h. ground arith; no_le = λ a b h. ground arith }

  -- the comparison of two deadlines, where the names are compared with the given outcome
  abbrev compared : Bool → Option ℕ → Option ℕ → Bool
  compared names a b =
      let p = urgency_order (deposit_urgency a now) in
      let q = urgency_order (deposit_urgency b now) in
      if ltb p q then true else if ltb q p then false else deadline_before names a b

  compared_yes :
      (h : ℕ) (names : Bool) (a b : Option ℕ)
      → compared names a b ≡ true
      → due_within h a ≤ due_within h b
  compared_yes h names none none e = omega arith
  compared_yes h names none (some zero) e = omega arith
  compared_yes h names none (some (suc b)) e = ground arith
  compared_yes h names (some zero) none e = omega arith
  compared_yes h names (some zero) (some zero) e = omega arith
  compared_yes h names (some zero) (some (suc b)) e = ground arith
  compared_yes h names (some (suc a)) none e = ground arith
  compared_yes h names (some (suc a)) (some zero) e = ground arith
  compared_yes h names (some (suc a)) (some (suc b)) e = ground arith

  compared_no :
      (h : ℕ) (names : Bool) (a b : Option ℕ)
      → compared names a b ≡ false
      → due_within h b ≤ due_within h a
  compared_no h names none none e = omega arith
  compared_no h names none (some zero) e = omega arith
  compared_no h names none (some (suc b)) e = ground arith
  compared_no h names (some zero) none e = omega arith
  compared_no h names (some zero) (some zero) e = omega arith
  compared_no h names (some zero) (some (suc b)) e = ground arith
  compared_no h names (some (suc a)) none e = ground arith
  compared_no h names (some (suc a)) (some zero) e = ground arith
  compared_no h names (some (suc a)) (some (suc b)) e = ground arith

  urgency-Respects-due :
      (h : ℕ) → Respects (urgency_before before_name now) (λ p. due_within h p.deadline)
  urgency-Respects-due h = record {
    yes_le = λ a b. compared_yes h (before_name a.name b.name) a.deadline b.deadline;
    no_le = λ a b. compared_no h (before_name a.name b.name) a.deadline b.deadline;
  }

-- Whatever the order of the names is, sorting the pools by urgency keeps each of them (every measure of
-- the pools has the same sum), puts the bands in the order overdue, urgent, soon, normal, unknown, and
-- within every horizon puts what is due sooner before what is due later, pools without a deadline last.
sort_by_urgency_lem :
    (before_name : String → String → Bool) (now : ℕ) (pools : List BatchDepositPool)
    (measure : BatchDepositPool → ℕ) (h : ℕ)
    → (sum_by measure (sort_by_urgency before_name pools now) ≡ sum_by measure pools)
      × IsSortedBy
          (λ p. urgency_order (deposit_urgency p.deadline now))
          (sort_by_urgency before_name pools now)
      × IsSortedBy (λ p. due_within h p.deadline) (sort_by_urgency before_name pools now)
unfolding sort_by_urgency
sort_by_urgency_lem before_name now pools measure h =
    let before = urgency_before before_name now in
    (
      sum_by-sort_by before measure pools,
      sort_by-IsSortedBy before _ (urgency-Respects-order before_name now) pools,
      sort_by-IsSortedBy before _ (urgency-Respects-due before_name now h) pools,
    )
