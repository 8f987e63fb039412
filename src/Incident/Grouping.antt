-- ===== src/Incident/Grouping.antt =====
-- Grouping a scan's critical alerts by pool (`groupCriticalAlertsByPool` in
-- frontend/lib/incident-response.ts). The `Map` is an association list in insertion order.
use Prim.Native.String.{compare}
use text.Mathlib.Text.{is_lt}
use joint_save.Prelude.{
  ℕ, ◌+◌, ◌≤◌, max, String, Bool, List, [], ◌∷◌, ◌++◌, ◌≡◌, ◌≢◌, arith, eq_iff, if◌then◌else◌, any,
  ◌==◌, All, Bool-cases, inl, inr,
}
use joint_save.Prelude.Text.{str_eq}
use joint_save.Prelude.Sort.{sum_by, sort_by, sum_by-sort_by, All-sort_by}
use joint_save.Prelude.Text.{times}
use joint_save.Security.Types.{
  RuleId, rule_index, AlertSeverity, critical, is_critical, SecurityAlert,
}

pub record PoolAlertGroup : Type 0 where
  pub pool_id : String
  pub rule_ids : List RuleId
  pub descriptions : List String
  pub alert_count : ℕ
  pub highest_severity : AlertSeverity

abbrev has_rule : RuleId → List RuleId → Bool
has_rule r rs = any (λ q. rule_index q == rule_index r) rs

-- the two branches on `existing`
abbrev grown : SecurityAlert → PoolAlertGroup → PoolAlertGroup
grown a g = record g {
  alert_count = g.alert_count + 1;
  rule_ids = if has_rule a.rule_id g.rule_ids then g.rule_ids else g.rule_ids ++ a.rule_id ∷ [];
  descriptions = g.descriptions ++ a.description ∷ [];
}

abbrev fresh : SecurityAlert → String → PoolAlertGroup
fresh a p = record {
  pool_id = p;
  rule_ids = a.rule_id ∷ [];
  descriptions = a.description ∷ [];
  alert_count = 1;
  highest_severity = critical;
}

add_to_pool : SecurityAlert → String → List PoolAlertGroup → List PoolAlertGroup
add_to_pool a p [] = fresh a p ∷ []
add_to_pool a p (g ∷ gs) = if str_eq g.pool_id p then grown a g ∷ gs else g ∷ add_to_pool a p gs

-- the loop over `alert.affected_pools`
add_pools : SecurityAlert → List String → List PoolAlertGroup → List PoolAlertGroup
add_pools a [] gs = gs
add_pools a (p ∷ ps) gs = add_pools a ps (if str_eq p "" then gs else add_to_pool a p gs)

-- the loop over the alerts
group_from : List SecurityAlert → List PoolAlertGroup → List PoolAlertGroup
group_from [] gs = gs
group_from (a ∷ rest) gs =
    group_from rest (if is_critical a.severity then add_pools a a.affected_pools gs else gs)

abbrev pub id_before : PoolAlertGroup → PoolAlertGroup → Bool
id_before a b = is_lt (compare a.pool_id b.pool_id)

unfoldable pub group_critical_alerts_by_pool : List SecurityAlert → List PoolAlertGroup
unfolding group_from add_pools add_to_pool
group_critical_alerts_by_pool alerts = sort_by id_before (group_from alerts [])

-- How often the critical alerts name a pool.
abbrev pub mentions : String → List SecurityAlert → ℕ
mentions p [] = 0
mentions p (a ∷ rest) =
    (if is_critical a.severity then times p a.affected_pools else 0) + mentions p rest

-- The alerts counted for a pool, and the number of its groups.
abbrev pub alerts_counted : String → PoolAlertGroup → ℕ
alerts_counted p g = if str_eq g.pool_id p then g.alert_count else 0

abbrev pub is_group_of : String → PoolAlertGroup → ℕ
is_group_of p g = if str_eq g.pool_id p then 1 else 0

module _ (p : String) where
  counted-add_to_pool :
      (a : SecurityAlert) (q : String) (gs : List PoolAlertGroup)
      → sum_by (alerts_counted p) (add_to_pool a q gs)
        ≡ (if str_eq q p then 1 else 0) + sum_by (alerts_counted p) gs
  unfolding add_to_pool
  counted-add_to_pool a q [] = ground arith
  counted-add_to_pool a q (g ∷ gs) =
      ground (arith, eq_iff g.pool_id q, eq_iff g.pool_id p, eq_iff q p, counted-add_to_pool a q gs)

  counted-add_pools :
      (a : SecurityAlert) (qs : List String) (gs : List PoolAlertGroup)
      → p ≢ ""
      → sum_by (alerts_counted p) (add_pools a qs gs) ≡ times p qs + sum_by (alerts_counted p) gs
  unfolding add_pools
  counted-add_pools a [] gs h = omega arith
  counted-add_pools a (q ∷ qs) gs h = ground (
    arith,
    eq_iff q "",
    eq_iff q p,
    counted-add_to_pool a q gs,
    counted-add_pools a qs gs h,
    counted-add_pools a qs (add_to_pool a q gs) h,
  )

  counted-group_from :
      (alerts : List SecurityAlert) (gs : List PoolAlertGroup)
      → p ≢ ""
      → sum_by (alerts_counted p) (group_from alerts gs)
        ≡ mentions p alerts + sum_by (alerts_counted p) gs
  unfolding group_from
  counted-group_from [] gs h = omega arith
  counted-group_from (a ∷ rest) gs h = ground (
    arith,
    counted-add_pools a a.affected_pools gs h,
    counted-group_from rest gs h,
    counted-group_from rest (add_pools a a.affected_pools gs) h,
  )

  -- The alert counts that the groups hold for a pool add up to the number of times that the
  -- critical alerts of the scan name it; alerts below critical add nothing.
  pub group_critical_alerts_by_pool_counts :
      (alerts : List SecurityAlert)
      → p ≢ ""
      → sum_by (alerts_counted p) (group_critical_alerts_by_pool alerts) ≡ mentions p alerts
  unfolding group_critical_alerts_by_pool
  group_critical_alerts_by_pool_counts alerts h = omega (
    arith,
    sum_by-sort_by id_before (alerts_counted p) (group_from alerts []),
    counted-group_from alerts [] h,
  )

  groups-add_to_pool :
      (a : SecurityAlert) (q : String) (gs : List PoolAlertGroup)
      → sum_by (is_group_of p) (add_to_pool a q gs)
        ≡ (if str_eq q p then max 1 (sum_by (is_group_of p) gs) else sum_by (is_group_of p) gs)
  unfolding add_to_pool
  groups-add_to_pool a q [] = ground arith
  groups-add_to_pool a q (g ∷ gs) =
      ground (arith, eq_iff g.pool_id q, eq_iff g.pool_id p, eq_iff q p, groups-add_to_pool a q gs)

  groups-add_pools :
      (a : SecurityAlert) (qs : List String) (gs : List PoolAlertGroup)
      → sum_by (is_group_of p) gs ≤ 1
      → sum_by (is_group_of p) (add_pools a qs gs) ≤ 1
  unfolding add_pools
  groups-add_pools a [] gs h = h
  groups-add_pools a (q ∷ qs) gs h = ground (
    arith,
    groups-add_to_pool a q gs,
    groups-add_pools a qs gs h,
    groups-add_pools a qs (add_to_pool a q gs),
  )

  groups-group_from :
      (alerts : List SecurityAlert) (gs : List PoolAlertGroup)
      → sum_by (is_group_of p) gs ≤ 1
      → sum_by (is_group_of p) (group_from alerts gs) ≤ 1
  unfolding group_from
  groups-group_from [] gs h = h
  groups-group_from (a ∷ rest) gs h = ground (
    arith,
    groups-add_pools a a.affected_pools gs h,
    groups-group_from rest gs h,
    groups-group_from rest (add_pools a a.affected_pools gs),
  )

  -- No pool has two groups.
  group_critical_alerts_by_pool_distinct :
      (alerts : List SecurityAlert)
      → sum_by (is_group_of p) (group_critical_alerts_by_pool alerts) ≤ 1
  unfolding group_critical_alerts_by_pool
  group_critical_alerts_by_pool_distinct alerts = omega (
    arith,
    sum_by-sort_by id_before (is_group_of p) (group_from alerts []),
    groups-group_from alerts [] (omega arith),
  )

named-add_to_pool :
    (a : SecurityAlert) (q : String) (gs : List PoolAlertGroup)
    → q ≢ ""
    → All (λ g. g.pool_id ≢ "") gs
    → All (λ g. g.pool_id ≢ "") (add_to_pool a q gs)
unfolding add_to_pool
named-add_to_pool a q [] h k = (h, tt)
named-add_to_pool a q (g ∷ gs) h (p, k) = elim (Bool-cases (str_eq g.pool_id q)) [
  | inl e ↦ rw e (p, k)
  | inr e ↦ rw e (p, named-add_to_pool a q gs h k)
]

named-add_pools :
    (a : SecurityAlert) (qs : List String) (gs : List PoolAlertGroup)
    → All (λ g. g.pool_id ≢ "") gs
    → All (λ g. g.pool_id ≢ "") (add_pools a qs gs)
unfolding add_pools
named-add_pools a [] gs k = k
named-add_pools a (q ∷ qs) gs k = elim (Bool-cases (str_eq q "")) [
  | inl e ↦ rw e (named-add_pools a qs gs k)
  | inr e ↦ rw e (
      named-add_pools a qs (add_to_pool a q gs)
        (named-add_to_pool a q gs (λ same. cc ((eq_iff q "").1 same)) k))
]

named-group_from :
    (alerts : List SecurityAlert) (gs : List PoolAlertGroup)
    → All (λ g. g.pool_id ≢ "") gs
    → All (λ g. g.pool_id ≢ "") (group_from alerts gs)
unfolding group_from
named-group_from [] gs k = k
named-group_from (a ∷ rest) gs k = elim (Bool-cases (is_critical a.severity)) [
  | inl e ↦ rw e (
      named-group_from rest (add_pools a a.affected_pools gs)
        (named-add_pools a a.affected_pools gs k))
  | inr e ↦ rw e (named-group_from rest gs k)
]

-- Every group names a pool.
pub group_critical_alerts_by_pool_named :
    (alerts : List SecurityAlert) → All (λ g. g.pool_id ≢ "") (group_critical_alerts_by_pool alerts)
unfolding group_critical_alerts_by_pool
group_critical_alerts_by_pool_named alerts =
    All-sort_by id_before (λ g. g.pool_id ≢ "") (group_from alerts [])
      (named-group_from alerts [] tt)
