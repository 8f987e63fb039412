-- ===== src/Incident/Scan.antt =====
-- From a scan's alerts to the pools that are paused (`groupCriticalAlertsByPool` into
-- `decideIncidentResponse`, frontend/lib/incident-response.ts).
use mathlib.Core.List.{Memᴰ}
use joint_save.Prelude.{
  ℕ, String, true, false, Option, some, List, [], ◌∷◌, ◌≡◌, ◌≢◌, ◌≤◌, ◌<◌, refl, arith, eq_iff, All,
  All-intro, All-elim, or_else,
}
use joint_save.Prelude.Sort.{sum_by}
use joint_save.Security.Types.{SecurityAlert}
use joint_save.Incident.Config.{IncidentConfig}
use joint_save.Incident.Grouping.{
  PoolAlertGroup, group_critical_alerts_by_pool, alerts_counted, mentions,
  group_critical_alerts_by_pool_counts, group_critical_alerts_by_pool_named,
}
use joint_save.Incident.Decision.{
  PoolState, active, IncidentDecision, decide_auto_pause, decide_incident_response, get,
}
use joint_save.Incident.Breaker.{decide_auto_pause-pause_iff, decide_auto_pause-fields}

sum_by-ge : {A : Type 0} (f : A → ℕ) (x : A) (xs : List A) → Memᴰ x xs → f x ≤ sum_by f xs
sum_by-ge f x _ (Memᴰ.head {xs} e) = rw e (omega arith)
sum_by-ge f x _ (Memᴰ.tail {xs} m) = omega (arith, sum_by-ge f x xs m)

counted_self : (g : PoolAlertGroup) → alerts_counted g.pool_id g ≡ g.alert_count
counted_self g = rw ((eq_iff g.pool_id g.pool_id).1 refl)

-- A decision that is carried out rests on enough alerts, and on a pool that could be paused.
pub record IsJustified (alerts : List SecurityAlert) (pools : List (String × PoolState))
    (recent : List (String × ℕ)) (c : IncidentConfig) (d : IncidentDecision) : Type 0 where
  pub armed : c.dry_run ≡ false
  pub enough : c.critical_threshold ≤ mentions d.pool_id alerts
  pub state : PoolState
  pub known : get d.pool_id pools ≡ some state
  pub live : state.status ≡ active
  pub allowed : or_else (get d.pool_id recent) 0 < c.max_pauses_per_window

module _ (alerts : List SecurityAlert) (pools : List (String × PoolState))
    (recent : List (String × ℕ)) (c : IncidentConfig) where
  group-mentions :
      (g : PoolAlertGroup)
      → Memᴰ g (group_critical_alerts_by_pool alerts)
      → g.alert_count ≤ mentions g.pool_id alerts
  group-mentions g m = omega (
    arith,
    counted_self g,
    sum_by-ge (alerts_counted g.pool_id) g (group_critical_alerts_by_pool alerts) m,
    group_critical_alerts_by_pool_counts g.pool_id alerts
        (All-elim (λ g. g.pool_id ≢ "") _ (group_critical_alerts_by_pool_named alerts) m),
  )

  pool_id-decide :
      (g : PoolAlertGroup) (pool : Option PoolState) (n : ℕ)
      → (decide_auto_pause g pool n c).pool_id ≡ g.pool_id
  unfolding decide_auto_pause
  pool_id-decide g pool n = ground arith

  decide-IsJustified :
      (g : PoolAlertGroup)
      → Memᴰ g (group_critical_alerts_by_pool alerts)
      → let d = decide_auto_pause g (get g.pool_id pools) (or_else (get g.pool_id recent) 0) c in
        d.executed ≡ true → IsJustified alerts pools recent c d
  decide-IsJustified g m h =
      let pool = get g.pool_id pools in
      let n = or_else (get g.pool_id recent) 0 in
      let (pausing, armed) = (decide_auto_pause-fields g pool n c).0.0 h in
      let trip = (decide_auto_pause-pause_iff g pool n c).0 pausing in
      let same = pool_id-decide g pool n in
      record {
        armed = armed;
        enough = rw same (omega (arith, trip.enough, group-mentions g m));
        state = trip.state;
        known = rw same trip.known;
        live = trip.live;
        allowed = rw same trip.allowed;
      }

  decisions-IsJustified :
      (groups : List PoolAlertGroup)
      → All (λ g. Memᴰ g (group_critical_alerts_by_pool alerts)) groups
      → All
          (λ d. d.executed ≡ true → IsJustified alerts pools recent c d)
          (decide_incident_response groups pools recent c)
  unfolding decide_incident_response
  decisions-IsJustified [] h = tt
  decisions-IsJustified (g ∷ gs) (m, h) = (decide-IsJustified g m, decisions-IsJustified gs h)

  -- Every pause that a scan carries out is justified: the breaker is armed, the critical alerts of
  -- the scan name the pool at least as often as the threshold asks, the pool is known and active,
  -- and its auto-pauses in the cooldown window are fewer than the allowance.
  pub scan_pauses-IsJustified :
      All
        (λ d. d.executed ≡ true → IsJustified alerts pools recent c d)
        (decide_incident_response (group_critical_alerts_by_pool alerts) pools recent c)
  scan_pauses-IsJustified =
      decisions-IsJustified (group_critical_alerts_by_pool alerts)
        (All-intro (λ g. Memᴰ g (group_critical_alerts_by_pool alerts)) _ (λ g m. m))
