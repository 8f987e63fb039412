-- ===== src/BatchDeposit/Retry.antt =====
-- Another try of what failed (retryFailed of frontend/hooks/useBatchDeposit.ts).
use joint_save.Prelude.{String, List, map, filter}
use joint_save.BatchDeposit.Run.{BatchState, needs_retry}
use joint_save.BatchDeposit.Settled.{ids}

-- the pools of the items that failed or were cancelled
abbrev pub retryable_ids : BatchState → List String
retryable_ids b = ids (map (λ x. x.pool) (filter needs_retry b.items))
