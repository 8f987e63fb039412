-- ===== src/Pending/Recovery.antt =====
-- What a recovery of the records in flight reports and leaves (frontend/lib/pending-transactions.ts).
use joint_save.Prelude.{ℕ, String, Bool, not, Option, none, some, List, [], ◌∷◌, any}
use joint_save.Prelude.Text.{str_eq}
use joint_save.Pending.Store.{PendingTransactionRecord, Response, RecoveryOutcome, verdict}

-- the outcomes that the answers of a client decide, in the order of the records
abbrev pub decided_by :
    (String → Option Response) → ℕ → List PendingTransactionRecord → List RecoveryOutcome
decided_by client now [] = []
decided_by client now (r ∷ rs) = elim (client r.hash) [
  | none ↦ decided_by client now rs
  | some response ↦ elim (verdict response now r) [
    | none ↦ decided_by client now rs
    | some v ↦ record { record_of = r; outcome = v } ∷ decided_by client now rs
  ]
]

-- no outcome is about the hash of this record
abbrev pub untouched : List RecoveryOutcome → PendingTransactionRecord → Bool
untouched out r = not (any (λ o. str_eq r.hash o.record_of.hash) out)
