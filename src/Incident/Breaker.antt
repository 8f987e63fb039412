-- ===== src/Incident/Breaker.antt =====
-- When the breaker trips, and what dry-run changes (frontend/lib/incident-response.ts).
use joint_save.Prelude.{
  ℕ, true, false, Option, none, some, ◌≡◌, ◌≢◌, ◌≤◌, ◌<◌, ◌↔◌, arith, Option-cases, inl, inr,
}
use joint_save.Incident.Config.{IncidentConfig}
use joint_save.Incident.Grouping.{PoolAlertGroup}
use joint_save.Incident.Decision.{PoolState, active, pause, decide_auto_pause}

-- The alerts reach the threshold, the pool is known and active, and the pauses in the cooldown
-- window are below the allowance.
pub record MustTrip (g : PoolAlertGroup) (pool : Option PoolState) (recent : ℕ) (c : IncidentConfig)
    : Type 0 where
  pub enough : c.critical_threshold ≤ g.alert_count
  pub state : PoolState
  pub known : pool ≡ some state
  pub live : state.status ≡ active
  pub allowed : recent < c.max_pauses_per_window

module _ (g : PoolAlertGroup) (pool : Option PoolState) (recent : ℕ) (c : IncidentConfig) where
  decide-pause_known :
      (p : PoolState)
      → pool ≡ some p
      → ((decide_auto_pause g pool recent c).action ≡ pause) ↔ (
          (c.critical_threshold ≤ g.alert_count)
          × (p.status ≡ active)
          × (recent < c.max_pauses_per_window))
  unfolding decide_auto_pause
  decide-pause_known p e = ground arith

  decide-pause_unknown : pool ≡ none → (decide_auto_pause g pool recent c).action ≢ pause
  unfolding decide_auto_pause
  decide-pause_unknown e = ground arith

  -- The decision is a pause exactly when the critical alerts reach the threshold, the pool is known
  -- and active, and it was auto-paused fewer times in the cooldown window than is allowed.
  pub decide_auto_pause-pause_iff :
      ((decide_auto_pause g pool recent c).action ≡ pause) ↔ MustTrip g pool recent c
  decide_auto_pause-pause_iff = elim (Option-cases pool) [
    | inl e ↦ (λ h. absurd (decide-pause_unknown e h), λ m. absurd (cc m.known))
    | inr (p, e) ↦ (
      λ h.
          let (enough, live, allowed) = (decide-pause_known p e).0 h in
          record { enough = enough; state = p; known = e; live = live; allowed = allowed },
      λ m. (decide-pause_known m.state m.known).1 (m.enough, m.live, m.allowed),
    )
  ]

  -- How the fields of a decision hang together: it is carried out exactly when it is a pause and
  -- the breaker is not in dry-run, it gives a reason to hold off exactly when it is no pause, and
  -- it reports that the breaker would fire exactly when the alerts reach the threshold.
  pub decide_auto_pause-fields :
      let d = decide_auto_pause g pool recent c in
      ((d.executed ≡ true) ↔ ((d.action ≡ pause) × (c.dry_run ≡ false)))
      × ((d.skip_reason ≡ none) ↔ (d.action ≡ pause))
      × ((d.would_fire ≡ true) ↔ (c.critical_threshold ≤ g.alert_count))
  unfolding decide_auto_pause
  decide_auto_pause-fields = ground arith

  -- Dry-run changes `executed` and nothing else: the decision taken in dry-run is the armed one,
  -- not carried out.
  pub decide_auto_pause-dry_run :
      decide_auto_pause g pool recent (record c { dry_run = true })
      ≡ record (decide_auto_pause g pool recent (record c { dry_run = false })) { executed = false }
  unfolding decide_auto_pause
  decide_auto_pause-dry_run = ground arith
