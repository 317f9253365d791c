-- ===== src/Commission/Disburse.antt =====
-- services/commission/ledger/disburse.py. A pass reads the rows that are due once; each answer is then
-- written in a transaction of its own, which no constraint refuses, since it only moves a row on.
pub mod Moves
pub mod Pass
pub mod Word
pub mod Order
pub mod Tests
use devops_g_9_tillflow.Base.{
  ℕ, suc, ◌+◌, String, Bool, true, false, ◌&&◌, ◌||◌, not, nat_eq, leb, ◌==◌, is_none, Option, none,
  some, List, [], ◌∷◌, if◌then◌else◌,
}
use devops_g_9_tillflow.Base.Text.{length}
use devops_g_9_tillflow.Base.Table.{rows_where, update_where}
use devops_g_9_tillflow.Commission.Tables.{
  LedgerState, LedgerRow, AnomalyKind, Severity, Anomaly, Db, same_state,
}
use devops_g_9_tillflow.Commission.Common.{
  Reply, PayoutOutcome, created, already_requested, in_flight_retry_next_run, conflict_needs_review,
  held, payouts_disabled, rejected, classify_payout_response, terminal_payments_state, next_backoff,
}

-- `Store.anomaly`, about a payout row.
unfoldable pub anomaly : AnomalyKind → Severity → ℕ → LedgerRow → Db → Db
anomaly kind severity now row d = record d {
  anomalies =
      record {
        kind = kind;
        severity = severity;
        tenant_id = row.tenant_id;
        attendant_id = row.attendant_id;
        payout_ledger_id = row.id;
        created_at = now;
      }
      ∷ d.anomalies;
}

-- WHERE id = ? AND state = ?
unfoldable pub is_row_in : String → LedgerState → LedgerRow → Bool
is_row_in id state r = r.id == id && same_state r.state state

unfoldable pub update_row : String → LedgerState → (LedgerRow → LedgerRow) → Db → Db
update_row id state f d = record d {
  payout_ledger = update_where (is_row_in id state) f d.payout_ledger;
}

abbrev pub set_requested : Option String → ℕ → LedgerRow → LedgerRow
set_requested disbursement_id now r = record r {
  state = LedgerState.requested;
  disbursement_id = disbursement_id;
  updated_at = now;
}

abbrev pub set_settled : LedgerState → Option String → Option String → ℕ → LedgerRow → LedgerRow
set_settled target disbursement_id failure_reason now r = record r {
  state = target;
  disbursement_id = disbursement_id;
  failure_reason = failure_reason;
  updated_at = now;
}

abbrev pub set_verdict : LedgerState → Option String → ℕ → LedgerRow → LedgerRow
set_verdict target failure_reason now r = record r {
  state = target;
  failure_reason = failure_reason;
  updated_at = now;
}

unfoldable pub is_failure : LedgerState → Bool
is_failure target = same_state target LedgerState.failed

-- The transaction for a 200 or 201.
unfoldable pub record_accepted : ℕ → LedgerRow → Reply → Option LedgerState → Db → Db
record_accepted now row r none d =
    update_row row.id LedgerState.planned (set_requested r.disbursement_id now) d
record_accepted now row r (some target) d =
    let e =
      update_row row.id LedgerState.planned
        (set_settled target r.disbursement_id r.failure_reason now) d in
    if is_failure target then anomaly AnomalyKind.payout_rejected Severity.critical now row e else e

-- The failure reason of a payout that Payments holds, `held_…`.
unfoldable pub record_held : (held_reason : String) → ℕ → LedgerRow → Db → Db
record_held held_reason now row d = anomaly AnomalyKind.payout_rejected Severity.critical now row (
    update_row row.id LedgerState.planned (set_verdict LedgerState.failed (some held_reason) now) d)

-- What the pass writes for one answer. `held_label` spells the outcome `held_<error>`.
unfoldable pub handle_outcome :
    (held_label : String → String) → ℕ → LedgerRow → Reply → PayoutOutcome → Db → Db
handle_outcome held_label now row r created d =
    record_accepted now row r (terminal_payments_state r.state) d
handle_outcome held_label now row r already_requested d =
    record_accepted now row r (terminal_payments_state r.state) d
handle_outcome held_label now row r in_flight_retry_next_run d = d
handle_outcome held_label now row r payouts_disabled d =
    anomaly AnomalyKind.payouts_paused Severity.high now row d
handle_outcome held_label now row r (held error) d = record_held (held_label error) now row d
handle_outcome held_label now row r conflict_needs_review d =
    anomaly AnomalyKind.unexpected_payout_response Severity.critical now row d
handle_outcome held_label now row r (rejected status) d =
    anomaly AnomalyKind.unexpected_payout_response Severity.critical now row d

unfoldable pub stops_pass : PayoutOutcome → Bool
stops_pass payouts_disabled = true
stops_pass _ = false

-- What one call of Payments gives: a status with a reply, or `none` for a `PaymentsError`.
pub record Call : Type 0 where
  pub response : Option (ℕ × Reply)
  pub now : ℕ

pub data Aborted : Type 0 where
  not_aborted payments_unreachable payouts_off : Aborted

-- The rows that Payments was asked to pay, in order, and what each answer was classified as (`none`
-- for a row that could not be sent), from which `counts` is tallied.
pub record SendReport : Type 0 where
  pub checked : ℕ
  pub outcomes : List (LedgerRow × Option PayoutOutcome)
  pub aborted : Aborted

module _ (held_label : String → String) (create_payout : LedgerRow → Call) where
  unfoldable pub send_rows :
      List LedgerRow → Db → List (LedgerRow × Option PayoutOutcome) × Aborted × Db
  send_rows [] d = ([], not_aborted, d)
  send_rows (row ∷ rows) d = elim ((create_payout row).response) [
    | none ↦ ((row, none) ∷ [], payments_unreachable, d)
    | some (status, r) ↦
        let outcome = classify_payout_response status r in
        let e = handle_outcome held_label (create_payout row).now row r outcome d in
        if stops_pass outcome
        then ((row, some outcome) ∷ [], payouts_off, e)
        else let rest = send_rows rows e in ((row, some outcome) ∷ rest.0, rest.1, rest.2)
  ]

  unfoldable pub send_due_payouts : Db → SendReport × Db
  send_due_payouts d =
      let due = rows_where (λ r. same_state r.state LedgerState.planned) d.payout_ledger in
      let sent = send_rows due d in
      (record { checked = length due; outcomes = sent.0; aborted = sent.1 }, sent.2)

-- `_bump_backoff`
unfoldable pub bump_backoff : ℕ → LedgerRow → Db → Db
bump_backoff now row d = record d {
  payout_ledger =
      update_where (λ r. r.id == row.id)
        (λ r. record r {
          reconcile_attempts = row.reconcile_attempts + 1;
          next_reconcile_at = some (now + next_backoff (row.reconcile_attempts + 1));
        })
        d.payout_ledger;
}

-- What the pair of calls gives: the record that Payments holds, or `none` if either raised.
pub record Check : Type 0 where
  pub payment : Option Reply
  pub now : ℕ

-- The transaction for a terminal answer.
unfoldable pub record_verdict : ℕ → LedgerRow → Option String → LedgerState → Db → Db
record_verdict now row failure_reason target d =
    let e = update_row row.id LedgerState.requested (set_verdict target failure_reason now) d in
    if same_state target LedgerState.succeeded
    then e
    else anomaly AnomalyKind.payout_failed Severity.high now row e

pub data Reconciled : Type 0 where
  inconclusive still_pending : Reconciled
  settled : LedgerState → Reconciled

unfoldable pub reconcile_state :
    ℕ → LedgerRow → Option String → Option LedgerState → Db → Reconciled × Db
reconcile_state now row failure_reason none d = (still_pending, bump_backoff now row d)
reconcile_state now row failure_reason (some target) d =
    (settled target, record_verdict now row failure_reason target d)

unfoldable pub reconcile_row : Check → LedgerRow → Db → Reconciled × Db
reconcile_row c row d = elim (c.payment) [
  | none ↦ (inconclusive, bump_backoff c.now row d)
  | some r ↦ reconcile_state c.now row r.failure_reason (terminal_payments_state r.state) d
]

unfoldable pub is_due : ℕ → LedgerRow → Bool
is_due now r =
    same_state r.state LedgerState.requested
    && not (is_none r.disbursement_id)
    && elim (r.next_reconcile_at) [ none ↦ true | some at ↦ leb at now ]

module _ (check : LedgerRow → Check) where
  unfoldable pub reconcile_rows : List LedgerRow → Db → List Reconciled × Db
  reconcile_rows [] d = ([], d)
  reconcile_rows (row ∷ rows) d =
      let one = reconcile_row (check row) row d in
      let rest = reconcile_rows rows one.1 in (one.0 ∷ rest.0, rest.1)

  unfoldable pub reconcile_requested_payouts : ℕ → Db → List Reconciled × Db
  reconcile_requested_payouts now d = reconcile_rows (rows_where (is_due now) d.payout_ledger) d
