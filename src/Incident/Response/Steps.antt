-- ===== src/Incident/Response/Steps.antt =====
-- The single writes of the breaker (frontend/lib/server/incident-actions.ts). Whether a read or a
-- write succeeds, what the network answers and the time are a `Luck`, one for each decision in turn.
use joint_save.Prelude.{
  ℕ, suc, String, Bool, true, false, not, ◌&&◌, Option, none, some, ◌∷◌, if◌then◌else◌, map, any,
  is_some,
}
use joint_save.Prelude.Text.{str_eq}
use joint_save.Incident.Config.{IncidentConfig}
use joint_save.Incident.Decision.{paused, Explanation, IncidentDecision}
use joint_save.Incident.Response.Store.{
  PoolRow, not_required, pending, ScanSource, Note, Database, is_active, pool_row, update_incident,
}

pub data LedgerAnswer : Type 0 where
  ledger_throws unreachable : LedgerAnswer
  at_ledger : ℕ → LedgerAnswer

-- what `submitOnChainPause` gives
pub data Submission : Type 0 where
  submitted : String → Submission
  unavailable : String → Submission
  refused : Option String → String → Submission
  submission_throws : Submission

pub record Luck : Type 0 where
  pub now : ℕ
  pub now_text : String
  pub records : Bool
  pub pauses : Bool
  pub marks : Bool
  pub audits : Bool
  pub reads_pool : Bool
  pub reads_authorizations : Bool
  pub ledger : LedgerAnswer
  pub claims : Bool
  pub submission : Submission
  pub updates : Bool
  pub finds_admin : Bool
  pub notifies : Bool

unfoldable pub record_incident :
    Luck → IncidentDecision → ScanSource → IncidentConfig → Database → Option ℕ × Database
record_incident l d source c db =
    if l.records
    then (
      some db.next,
      record db {
        next = suc db.next;
        incidents =
            record {
              id = db.next;
              created_at = l.now;
              scan_source = source;
              pool_id = d.pool_id;
              rule_ids = d.rule_ids;
              severity = d.severity;
              alert_count = d.alert_count;
              reason = d.reason;
              action = d.action;
              executed = false;
              dry_run = c.dry_run;
              skip_reason = d.skip_reason;
              platform_paused = false;
              onchain_status = not_required;
              onchain_tx_hash = none;
            }
            ∷ db.incidents;
      },
    )
    else (none, db)

-- the test of the update: this pool, and still active
abbrev pub may_pause : String → PoolRow → Bool
may_pause i p = str_eq p.id i && is_active p.status

abbrev pub pause_row : String → Explanation → PoolRow → PoolRow
pause_row i why p =
    if may_pause i p then record p { status = paused; pause_reason = some why } else p

-- whether a row was updated, and the rows
unfoldable pub pause_pool : Luck → String → Explanation → Database → Bool × Database
pause_pool l i why db =
    if l.pauses
    then (any (may_pause i) db.pools, record db { pools = map (pause_row i why) db.pools })
    else (false, db)

unfoldable pub mark_incident_executed : Luck → ℕ → Database → Database
mark_incident_executed l i db =
    if l.marks
    then record db {
      incidents =
          update_incident i
            (λ x. record x { executed = true; platform_paused = true; onchain_status = pending })
            db.incidents;
    }
    else db

unfoldable pub write_audit_trail : Luck → IncidentDecision → Option ℕ → Database → Database
write_audit_trail l d i db =
    if l.audits then record db { activity = (d.pool_id, d.reason, i) ∷ db.activity } else db

unfoldable pub notify_pool_admin :
    Luck → IncidentDecision → IncidentConfig → Option Note → Database → Database
notify_pool_admin l d c note db =
    if l.finds_admin && (is_some (pool_row d.pool_id db.pools) && l.notifies)
    then record db {
      notifications =
          record {
            pool_id = d.pool_id;
            says_dry_run = c.dry_run;
            says_paused = not c.dry_run;
            reason = d.reason;
            note = note;
          }
          ∷ db.notifications;
    }
    else db
