-- ===== src/Incident/Escalation.antt =====
-- From the rules to the breaker (frontend/lib/security-rules.ts into
-- frontend/lib/incident-response.ts), as a scan runs them.
use joint_save.Prelude.{
  Option, ℕ, String, false, List, [], ◌∷◌, ◌≡◌, ◌≤◌, refl, arith, Bool-cases, inl, inr, All,
  All-weaken,
}
use joint_save.Prelude.Sort.{sum_by}
use joint_save.Security.Types.{SecurityAlert}
use joint_save.Security.Context.{RuleContext}
use joint_save.Security.Engine.{run_security_rules}
use joint_save.Security.Raised.{named_by, run_security_rules_named}
use joint_save.Incident.Config.{IncidentConfig}
use joint_save.Incident.Grouping.{PoolAlertGroup, group_critical_alerts_by_pool, mentions}
use joint_save.Incident.Decision.{PoolState, decide_auto_pause, decide_incident_response}
use joint_save.Incident.Scan.{scan_pauses-IsJustified}

mentions-sum :
    (p : String) (alerts : List SecurityAlert) → mentions p alerts ≡ sum_by (named_by p) alerts
mentions-sum p [] = refl
mentions-sum p (a ∷ alerts) = omega (arith, mentions-sum p alerts)

-- A threshold above two disables the breaker: the rules name a pool in two critical alerts at most, so
-- no scan is ever followed by a pause that is carried out, whatever the activity, the pools and the
-- other settings are.
pub high_threshold_never_pauses :
    (ctx : RuleContext) (pools : List (String × PoolState)) (recent : List (String × ℕ))
    (c : IncidentConfig)
    → 3 ≤ c.critical_threshold
    → All
        (λ d. d.executed ≡ false)
        (decide_incident_response
          (group_critical_alerts_by_pool (run_security_rules ctx))
          pools
          recent
          c)
high_threshold_never_pauses ctx pools recent c high =
    All-weaken _
      (λ d justified. elim (Bool-cases d.executed) [
        | inl e ↦ absurd (
            omega (
              arith,
              high,
              (justified e).enough,
              mentions-sum d.pool_id (run_security_rules ctx),
              run_security_rules_named d.pool_id ctx,
            ))
        | inr e ↦ e
      ])
      (scan_pauses-IsJustified (run_security_rules ctx) pools recent c)

-- How far back alerts are counted has no say in a decision: two settings that differ only there give
-- the same action, the same execution and the same reason to hold off.
threshold_window_unused :
    (g : PoolAlertGroup) (pool : Option PoolState) (n w : ℕ) (c : IncidentConfig)
    → let a = decide_auto_pause g pool n c in
      let b = decide_auto_pause g pool n (record c { threshold_window_ms = w }) in
      (a.action ≡ b.action)
      × (a.executed ≡ b.executed)
      × (a.would_fire ≡ b.would_fire)
      × (a.skip_reason ≡ b.skip_reason)
unfolding decide_auto_pause
threshold_window_unused g pool n w c = ground arith
