-- ===== src/Security/Raised.antt =====
-- The alerts that a run of the rules raises (frontend/lib/security-rules.ts).
use joint_save.Prelude.{
  ℕ, String, Bool, true, false, ◌&&◌, Option, none, some, List, [], ◌∷◌, if◌then◌else◌, leb, length,
  filter, count, map, is_some, ◌≡◌, ◌≤◌, refl, arith, All,
}
use joint_save.Prelude.Sort.{
  sum_by, sum_by-sort_by, All-sort_by, Respects, IsSortedBy, sort_by-IsSortedBy,
}
use joint_save.Security.Types.{AlertSeverity, is_critical, SecurityAlert}
use joint_save.Prelude.Text.{times}
use joint_save.Security.Collections.{times-distinct, keys, group_by, times-group_by}
use joint_save.Security.Context.{RuleContext, within, hour_ms}
use joint_save.Security.Rules.{
  detect_rapid_emergency_withdraw, detect_unusual_deposit_spike, detect_admin_key_rotation,
  detect_mass_member_removal, recent_emergencies, recent_removals, is_mass_removal,
}
use joint_save.Security.Engine.{
  SecurityRule, get_rule_by_id, detect_pool_pause_cascade, detect_dormant_pool_activation,
  detect_failed_transaction_storm, detect_reputation_manipulation, is_pause, more_severe,
  severity_rank, raised, detections, run_security_rules,
}

-- how often a critical alert names a pool
abbrev pub named_by : String → SecurityAlert → ℕ
named_by p a = if is_critical a.severity then times p a.affected_pools else 0

abbrev named_by_each : String → Option SecurityAlert → ℕ
named_by_each p none = 0
named_by_each p (some a) = named_by p a

sum-raised :
    (p : String) (xs : List (Option SecurityAlert))
    → sum_by (named_by p) (raised xs) ≡ sum_by (named_by_each p) xs
sum-raised p [] = refl
sum-raised p (none ∷ xs) = omega (arith, sum-raised p xs)
sum-raised p (some a ∷ xs) = omega (arith, sum-raised p xs)

times-filter-keys :
    {A : Type 0} (p : String) (q : String × List A → Bool) (m : List (String × List A))
    → times p (map (λ g. g.0) (filter q m)) ≤ times p (keys m)
times-filter-keys p q [] = omega arith
times-filter-keys p q (g ∷ m) = ground (arith, times-filter-keys p q m)

module _ (p : String) (ctx : RuleContext) where
  rapid_named : named_by_each p (detect_rapid_emergency_withdraw ctx) ≤ 1
  unfolding detect_rapid_emergency_withdraw
  rapid_named = ground (arith, times-distinct p (map (λ a. a.pool_id) (recent_emergencies ctx)))

  mass_named : named_by_each p (detect_mass_member_removal ctx) ≤ 1
  unfolding detect_mass_member_removal
  mass_named = ground (
    arith,
    times-filter-keys p (is_mass_removal ctx) (group_by (λ a. a.pool_id) (recent_removals ctx)),
    times-group_by p (λ a. a.pool_id) (recent_removals ctx) [] (omega arith),
  )

  others_named :
      (named_by_each p (detect_unusual_deposit_spike ctx) ≡ 0)
      × (named_by_each p (detect_admin_key_rotation ctx) ≡ 0)
      × (named_by_each p (detect_pool_pause_cascade ctx) ≡ 0)
      × (named_by_each p (detect_dormant_pool_activation ctx) ≡ 0)
      × (named_by_each p (detect_failed_transaction_storm ctx) ≡ 0)
      × (named_by_each p (detect_reputation_manipulation ctx) ≡ 0)
  unfolding detect_unusual_deposit_spike detect_admin_key_rotation detect_pool_pause_cascade
      detect_dormant_pool_activation detect_failed_transaction_storm detect_reputation_manipulation
  others_named =
      (ground arith, ground arith, ground arith, ground arith, ground arith, ground arith)

  -- No more than two critical alerts of a run name the same pool.
  pub run_security_rules_named : sum_by (named_by p) (run_security_rules ctx) ≤ 2
  unfolding run_security_rules
  run_security_rules_named =
      let (a, b, c, d, e, f) = others_named in
      omega (
        arith,
        sum_by-sort_by more_severe (named_by p) (raised (detections ctx)),
        sum-raised p (detections ctx),
        rapid_named,
        mass_named,
        a,
        b,
        c,
        d,
        e,
        f,
      )

-- the severity that the table of rules gives
abbrev pub severity_of : Option SecurityRule → Option AlertSeverity
severity_of none = none
severity_of (some r) = some r.severity

-- The alert has the severity that the table of rules gives its rule.
abbrev pub HasRuleSeverity : SecurityAlert → Type 0
HasRuleSeverity a = severity_of (get_rule_by_id a.rule_id) ≡ some a.severity

abbrev Lawful : Option SecurityAlert → Type 0
Lawful none = Unit
Lawful (some a) = HasRuleSeverity a

raised-All : (xs : List (Option SecurityAlert)) → All Lawful xs → All HasRuleSeverity (raised xs)
raised-All [] h = tt
raised-All (none ∷ xs) (p, h) = raised-All xs h
raised-All (some a ∷ xs) (p, h) = (p, raised-All xs h)

raised-le : (xs : List (Option SecurityAlert)) → length (raised xs) ≤ length xs
raised-le [] = omega arith
raised-le (none ∷ xs) = omega (arith, raised-le xs)
raised-le (some a ∷ xs) = omega (arith, raised-le xs)

if_raised : (b : Bool) (a : SecurityAlert) → HasRuleSeverity a → Lawful (if b then none else some a)
if_raised true a h = tt
if_raised false a h = h

if_raised_twice :
    (b c : Bool) (a : SecurityAlert)
    → HasRuleSeverity a
    → Lawful (if b then none else if c then none else some a)
if_raised_twice true c a h = tt
if_raised_twice false true a h = tt
if_raised_twice false false a h = h

count_one_each : (xs : List SecurityAlert) → sum_by (λ a. 1) xs ≡ length xs
count_one_each [] = refl
count_one_each (x ∷ xs) = omega (arith, count_one_each xs)

by_severity : Respects more_severe (λ a. severity_rank a.severity)
by_severity = record { yes_le = λ a b h. ground arith; no_le = λ a b h. ground arith }

filter_twice :
    {A : Type 0} (p q : A → Bool) (xs : List A)
    → filter p (filter q xs) ≡ filter (λ x. q x && p x) xs
filter_twice p q [] = refl
filter_twice p q (x ∷ xs) = ground (arith, filter_twice p q xs)

module _ (ctx : RuleContext) where
  detections-Lawful : All Lawful (detections ctx)
  unfolding detect_rapid_emergency_withdraw detect_unusual_deposit_spike detect_admin_key_rotation
      detect_mass_member_removal detect_pool_pause_cascade detect_dormant_pool_activation
      detect_failed_transaction_storm detect_reputation_manipulation get_rule_by_id
  detections-Lawful = (
    if_raised _ _ refl,
    (
      if_raised_twice _ _ _ refl,
      (
        if_raised _ _ refl,
        (
          if_raised_twice _ _ _ refl,
          (
            if_raised _ _ refl,
            (if_raised _ _ refl, (if_raised _ _ refl, (if_raised _ _ refl, tt))),
          ),
        ),
      ),
    ),
  )

  -- A run raises at most one alert for each of the eight rules, each with the severity of the table of
  -- rules, the most severe first.
  run_security_rules-IsSortedBy :
      (length (run_security_rules ctx) ≤ 8)
      × All HasRuleSeverity (run_security_rules ctx)
      × IsSortedBy (λ a. severity_rank a.severity) (run_security_rules ctx)
  unfolding run_security_rules
  run_security_rules-IsSortedBy = (
    omega (
      arith,
      count_one_each (run_security_rules ctx),
      sum_by-sort_by more_severe (λ a. 1) (raised (detections ctx)),
      count_one_each (raised (detections ctx)),
      raised-le (detections ctx),
    ),
    All-sort_by more_severe HasRuleSeverity _ (raised-All (detections ctx) detections-Lawful),
    sort_by-IsSortedBy more_severe (λ a. severity_rank a.severity) by_severity
        (raised (detections ctx)),
  )

-- The cascade rule fires from five pauses in the last hour on, whether or not they are of different
-- pools.
detect_pool_pause_cascade_iff :
    (ctx : RuleContext)
    → is_some (detect_pool_pause_cascade ctx)
      ≡ leb 5 (count (λ a. is_pause a && within ctx.now hour_ms a.created_at) ctx.admin_actions)
unfolding detect_pool_pause_cascade
detect_pool_pause_cascade_iff ctx =
    ground
      (arith, filter_twice (λ a. within ctx.now hour_ms a.created_at) is_pause ctx.admin_actions)
