-- ===== src/Security/Tests.antt =====
-- A day with an attack, and the theorems on the rules at it.
use joint_save.Prelude.{ℕ, String, none, some, List, [], ◌∷◌, ◌≡◌, refl, map}
use joint_save.Prelude.Text.{to_lower_case}
use joint_save.Prelude.Search.{contains}
use joint_save.Prelude.Decimal.{to_decimal}
use joint_save.Prelude.Sort.{sort_by, insert_by}
use joint_save.Security.Types.{
  RuleId, rapid_emergency_withdraw, mass_member_removal, pool_pause_cascade,
}
use joint_save.Security.Context.{ActivityRecord, active, AdminActionRecord, RuleContext}
use joint_save.Security.Rules.{
  detect_rapid_emergency_withdraw, detect_unusual_deposit_spike, detect_admin_key_rotation,
  detect_mass_member_removal,
}
use joint_save.Security.Engine.{
  detect_pool_pause_cascade, detect_dormant_pool_activation, detect_failed_transaction_storm,
  detect_reputation_manipulation, run_security_rules,
}

rules : Unit {0}
unfolding detect_rapid_emergency_withdraw detect_unusual_deposit_spike detect_admin_key_rotation
    detect_mass_member_removal detect_pool_pause_cascade detect_dormant_pool_activation
    detect_failed_transaction_storm detect_reputation_manipulation run_security_rules sort_by
    insert_by to_lower_case contains to_decimal
rules = tt

abbrev withdrawal : String → ℕ → ActivityRecord
withdrawal pool t = record {
  pool_id = pool;
  activity_type = "emergency_withdraw";
  user_address = some "GU";
  amount = none;
  description = none;
  created_at = t;
}

abbrev removal : String → AdminActionRecord
removal target = record {
  pool_id = "p1";
  admin_address = "GA";
  action_type = "remove_member";
  target_address = some target;
  created_at = 90000000;
}

abbrev pausing : ℕ → AdminActionRecord
pausing t = record {
  pool_id = "p9";
  admin_address = "GA";
  action_type = "pause";
  target_address = none;
  created_at = t;
}

abbrev attack : RuleContext
attack = record {
  activities =
      withdrawal "p1" 96500000
      ∷ withdrawal "p2" 97000000
      ∷ withdrawal "p1" 99000000
      ∷ withdrawal "p3" 5
      ∷ [];
  pools = record { id = "p1"; status = active; creator_address = "GA"; updated_at = 99000000 } ∷ [];
  members = record { pool_id = "p1"; member_address = "GU" } ∷ [];
  admin_actions =
      pausing 99000000
      ∷ removal "GX"
      ∷ pausing 99000001
      ∷ pausing 99000002
      ∷ pausing 99000003
      ∷ pausing 99000004
      ∷ [];
  now = 100000000;
}

attack_test :
    map {B = RuleId × List String} (λ a. (a.rule_id, a.affected_pools)) (run_security_rules attack)
    ≡ (rapid_emergency_withdraw, "p1" ∷ "p2" ∷ [])
      ∷ (mass_member_removal, "p1" ∷ [])
      ∷ (pool_pause_cascade, "p9" ∷ [])
      ∷ []
unfolding rules
attack_test = refl
