-- ===== src/Security/Rules.antt =====
-- The rules on withdrawals, deposits, admins and removals (frontend/lib/security-rules.ts).
use joint_save.Prelude.{
  ℕ, String, Bool, ◌&&◌, ◌||◌, Option, none, some, List, [], ◌∷◌, ◌++◌, ◌+◌, ◌*◌, ◌/◌, ◌%◌, max,
  if◌then◌else◌, ltb, or_else, is_some, length, filter, find, map,
}
use joint_save.Prelude.Text.{str_eq, template}
use joint_save.Prelude.Decimal.{to_decimal}
use joint_save.Prelude.Sort.{sum_by}
use joint_save.Security.Types.{
  info, warning, critical, rapid_emergency_withdraw, unusual_deposit_spike, admin_key_rotation,
  mass_member_removal, SecurityAlert,
}
use joint_save.Security.Collections.{distinct, present, group_by}
use joint_save.Security.Context.{
  ActivityRecord, AdminActionRecord, RuleContext, rapid_emergency_withdraw_threshold, hour_ms,
  deposit_spike_multiplier, mass_member_removal_window_ms, within, alert,
}

abbrev pub is_emergency : ActivityRecord → Bool
is_emergency a =
    str_eq a.activity_type "emergency_withdraw" || str_eq a.activity_type "emergency_withdrawal"

abbrev pub recent_emergencies : RuleContext → List ActivityRecord
recent_emergencies ctx =
    filter (λ a. within ctx.now hour_ms a.created_at) (filter is_emergency ctx.activities)

unfoldable pub detect_rapid_emergency_withdraw : RuleContext → Option SecurityAlert
detect_rapid_emergency_withdraw ctx =
    let recent = recent_emergencies ctx in
    let pools = distinct (map (λ a. a.pool_id) recent) in
    if ltb (length recent) rapid_emergency_withdraw_threshold
    then none
    else some (
        alert rapid_emergency_withdraw critical
          (template (
            to_decimal (length recent)
            ∷ " emergency withdrawals detected within 1 hour across "
            ∷ to_decimal (length pools)
            ∷ " pool(s)"
            ∷ []))
          pools (distinct (present (map (λ a. a.user_address) recent))))

abbrev pub is_deposit : ActivityRecord → Bool
is_deposit a = str_eq a.activity_type "deposit"

abbrev pub is_sized_deposit : ActivityRecord → Bool
is_sized_deposit a = is_deposit a && ltb 0 (or_else a.amount 0)

abbrev pub amount_of : ActivityRecord → ℕ
amount_of a = or_else a.amount 0

-- `avgDeposit.toFixed(2)`, of the fraction
abbrev pub to_fixed : ℕ → ℕ → String
to_fixed total n =
    let hundredths = (200 * total + n) / (2 * n) in
    template (
      to_decimal (hundredths / 100)
      ∷ "."
      ∷ to_decimal (hundredths % 100 / 10)
      ∷ to_decimal (hundredths % 10)
      ∷ [])

unfoldable pub detect_unusual_deposit_spike : RuleContext → Option SecurityAlert
detect_unusual_deposit_spike ctx =
    let deposits = filter is_sized_deposit ctx.activities in
    let total = sum_by amount_of deposits in
    let spikes =
      filter (λ a. ltb (total * deposit_spike_multiplier) (amount_of a * length deposits))
        deposits in
    if ltb (length deposits) 5
    then none
    else if ltb (length spikes) 1
    then none
    else some (
        alert unusual_deposit_spike warning
          (template (
            to_decimal (length spikes)
            ∷ " deposit(s) exceeded 10x the average ("
            ∷ to_fixed total (length deposits)
            ∷ ")"
            ∷ []))
          (distinct (map (λ a. a.pool_id) spikes))
          (distinct (present (map (λ a. a.user_address) spikes))))

abbrev pub is_rotation : AdminActionRecord → Bool
is_rotation a = str_eq a.action_type "admin_key_rotation" || str_eq a.action_type "transfer_admin"

unfoldable pub detect_admin_key_rotation : RuleContext → Option SecurityAlert
detect_admin_key_rotation ctx =
    let rotations = filter is_rotation ctx.admin_actions in
    let pools = distinct (map (λ a. a.pool_id) rotations) in
    if ltb (length rotations) 1
    then none
    else some (
        alert admin_key_rotation info
          (template (
            to_decimal (length rotations)
            ∷ " admin key rotation(s) detected across "
            ∷ to_decimal (length pools)
            ∷ " pool(s)"
            ∷ []))
          pools (distinct (map (λ a. a.admin_address) rotations)))

abbrev pub is_removal : AdminActionRecord → Bool
is_removal a = str_eq a.action_type "remove_member" || str_eq a.action_type "kick_member"

abbrev pub recent_removals : RuleContext → List AdminActionRecord
recent_removals ctx =
    filter (λ a. within ctx.now mass_member_removal_window_ms a.created_at)
      (filter is_removal ctx.admin_actions)

-- The pool is known, and `removals / max(1, members) > 0.5`.
abbrev pub is_mass_removal : RuleContext → String × List AdminActionRecord → Bool
is_mass_removal ctx (pool, removals) =
    is_some (find (λ p. str_eq p.id pool) ctx.pools)
    && ltb (max 1 (length (filter (λ m. str_eq m.pool_id pool) ctx.members))) (2 * length removals)

-- the removed member, where one is named, and the admin
abbrev pub wallets_of_removal : AdminActionRecord → List String
wallets_of_removal r = elim r.target_address [
  | none ↦ r.admin_address ∷ []
  | some t ↦ if str_eq t "" then r.admin_address ∷ [] else t ∷ r.admin_address ∷ []
]

abbrev pub flattened {ℓ} : {A : Type ℓ} → List (List A) → List A
flattened [] = []
flattened (xs ∷ rest) = xs ++ flattened rest

unfoldable pub detect_mass_member_removal : RuleContext → Option SecurityAlert
detect_mass_member_removal ctx =
    let recent = recent_removals ctx in
    let mass = filter (is_mass_removal ctx) (group_by (λ a. a.pool_id) recent) in
    let pools = map (λ g. g.0) mass in
    if ltb (length recent) 1
    then none
    else if ltb (length pools) 1
    then none
    else some (
        alert mass_member_removal critical
          (template (
            to_decimal (length recent)
            ∷ " member removal(s) in "
            ∷ to_decimal (length pools)
            ∷ " pool(s) within 24 hours (>50% of members)"
            ∷ []))
          pools (distinct (flattened (map wallets_of_removal (flattened (map (λ g. g.1) mass))))))
