-- ===== src/Payments/Payout/Reconcile.antt =====
-- Reconciliation and reads in services/payments/core/payouts.py.
use devops_g_9_tillflow.Base.{
  ℕ, suc, ◌+◌, String, Bool, ◌&&◌, ◌||◌, Option, none, some, List, [], ◌∷◌, ◌==◌, leb, holds_text,
  or_default, if◌then◌else◌,
}
use devops_g_9_tillflow.Base.Table.{find?, rows_where, count_where}
use devops_g_9_tillflow.Payments.States.{DisbursementState, same_disbursement_state}
use devops_g_9_tillflow.Payments.Common.{next_backoff, mask_msisdn}
use devops_g_9_tillflow.Payments.Tables.{
  DisbursementStatus, disbursement_create, PublicBody, DisbursementRow, disbursement_debit, Db,
}
use devops_g_9_tillflow.Payments.Tx.{Tx, ok, raised, pure, gets, row_of, tx, ◌>>=◌, ◌>>◌}
use devops_g_9_tillflow.Payments.Store.{idem_complete}
use devops_g_9_tillflow.Payments.Store.Disbursement.{
  update_disbursements, assign_all, disbursement_by_id, has_id, set_next_reconcile_at,
  set_reconcile_attempts,
}
use devops_g_9_tillflow.Payments.Service.{
  Applied, Body, Answer, replied, escaped, reply, Settings, DisburseQueryAnswer, status, timeout,
  unknown_reference,
}
use devops_g_9_tillflow.Payments.Collect.Reconcile.{
  is_entry_of, is_unknown_outcome, due_by, Counts, tally,
}
use devops_g_9_tillflow.Payments.Payout.Outcomes.{move_to_unknown, to_review, apply_outcome}
use devops_g_9_tillflow.Payments.Payout.Create.{public_of, public_body}

-- `_find`
abbrev pub is_named : String → DisbursementRow → Bool
is_named ident r =
    r.disbursement_id == ident
    || r.originator_conversation_id == ident
    || holds_text r.conversation_id ident

unfoldable pub disbursement_named : String → Db → Option DisbursementRow
disbursement_named ident d = find? (is_named ident) d.disbursements

unfoldable pub debit_count : String → Db → ℕ
debit_count record_id d = count_where (is_entry_of record_id disbursement_debit) d.ledger_entries

unfoldable pub get_payout : String → Db → Answer
get_payout ident d = elim (disbursement_named ident d) [
  | none ↦ reply 404 (Body.error "not_found")
  | some row ↦ reply 200 (
      Body.payout_view (public_of row) row.tenant_id row.attendant_id row.payout_period
        row.amount_minor (mask_msisdn row.msisdn) row.receipt (debit_count row.disbursement_id d))
]

abbrev pub window_elapsed : Settings → ℕ → DisbursementRow → Bool
window_elapsed cfg now row =
    leb (or_default row.unknown_since now + cfg.reconcile_window_seconds) now

unfoldable pub escalate : Settings → ℕ → DisbursementRow → Tx DisbursementState
escalate cfg now row =
    if same_disbursement_state row.state DisbursementState.unknown && window_elapsed cfg now row
    then to_review now row >> pure DisbursementState.needs_review
    else pure row.state

-- `_inconclusive`
unfoldable pub inconclusive : Settings → ℕ → String → Tx DisbursementState
inconclusive cfg now disbursement_id = do
  found ← gets (disbursement_by_id disbursement_id)
  row ← row_of found
  state ← escalate cfg now row
  update_disbursements (has_id disbursement_id) (
      assign_all (
        set_reconcile_attempts (row.reconcile_attempts + 1)
        ∷ set_next_reconcile_at (now + next_backoff (row.reconcile_attempts + 1))
        ∷ []))
  pure state

unfoldable pub reply_inconclusive : Settings → ℕ → String → String → Db → Answer × Db
reply_inconclusive cfg now disbursement_id reason d =
    elim (tx (inconclusive cfg now disbursement_id) d) [
      | ok state d' ↦ (reply 200 (Body.payout_not_reconciled disbursement_id state reason), d')
      | raised e d' ↦ (escaped e, d')
    ]

-- The transaction that applies a definitive status.
unfoldable pub apply_status : ℕ → String → DisbursementStatus → Tx (PublicBody × Applied)
apply_status now disbursement_id s = do
  found ← gets (disbursement_by_id disbursement_id)
  fresh ← row_of found
  result ← apply_outcome now fresh s.outcome s.failure_reason s.receipt s.raw_code
  body ← public_body disbursement_id
  pure (body, result)

unfoldable pub reconcile_status : Settings → ℕ → String → DisbursementStatus → Db → Answer × Db
reconcile_status cfg now disbursement_id s d =
    if is_unknown_outcome s.outcome
    then reply_inconclusive cfg now disbursement_id "still_unknown" d
    else elim (tx (apply_status now disbursement_id s) d) [
      | ok (body, result) d' ↦ (reply 200 (Body.reconciled body result), d')
      | raised e d' ↦ (escaped e, d')
    ]

-- `query` is what the provider answers for the originator id, if it is asked.
unfoldable pub reconcile_row :
    Settings → ℕ → DisbursementRow → (String → DisburseQueryAnswer) → Db → Answer × Db
reconcile_row cfg now row query d =
    if same_disbursement_state row.state DisbursementState.unknown
      || same_disbursement_state row.state DisbursementState.needs_review
    then elim (query row.originator_conversation_id) [
      | timeout ↦ reply_inconclusive cfg now row.disbursement_id "query_timeout" d
      | unknown_reference ↦
          reply_inconclusive cfg now row.disbursement_id "provider_does_not_know_id" d
      | status s ↦ reconcile_status cfg now row.disbursement_id s d
    ]
    else (reply 200 (Body.payout_not_reconciled row.disbursement_id row.state "not_unknown"), d)

unfoldable pub reconcile_payout :
    Settings → ℕ → String → (String → DisburseQueryAnswer) → Db → Answer × Db
reconcile_payout cfg now ident query d = elim (disbursement_named ident d) [
  | none ↦ (reply 404 (Body.error "not_found"), d)
  | some row ↦ reconcile_row cfg now row query d
]

abbrev pub is_lost_attempt : Settings → ℕ → DisbursementRow → Bool
is_lost_attempt cfg now r =
    same_disbursement_state r.state DisbursementState.created
    && due_by r.initiate_started_at cfg.created_sweep_seconds now

abbrev pub is_lost_result : Settings → ℕ → DisbursementRow → Bool
is_lost_result cfg now r =
    same_disbursement_state r.state DisbursementState.pending
    && due_by r.pending_since cfg.callback_deadline_seconds now

abbrev pub is_due : Settings → ℕ → DisbursementRow → Bool
is_due cfg now r =
    (same_disbursement_state r.state DisbursementState.unknown
      || same_disbursement_state r.state DisbursementState.needs_review)
    && due_by r.unknown_since cfg.reconcile_sla_seconds now
    && leb (or_default r.next_reconcile_at 0) now

unfoldable pub sweep_attempt : ℕ → DisbursementRow → Tx (Unit {0})
sweep_attempt now row = do
  move_to_unknown now row none
  body ← public_body row.disbursement_id
  idem_complete row.tenant_id disbursement_create row.idem_key 201 body row.disbursement_id

unfoldable pub for_each : (DisbursementRow → Tx (Unit {0})) → List DisbursementRow → Tx ℕ
for_each step [] = pure 0
for_each step (row ∷ rows) = do step row; n ← for_each step rows; pure (suc n)

-- The first transaction of `sweep`.
unfoldable pub sweep_tx : Settings → ℕ → Tx (ℕ × ℕ)
sweep_tx cfg now = do
  attempts ← gets (λ d. rows_where (is_lost_attempt cfg now) d.disbursements)
  created_to_unknown ← for_each (sweep_attempt now) attempts
  results ← gets (λ d. rows_where (is_lost_result cfg now) d.disbursements)
  pending_to_unknown ← for_each (λ row. move_to_unknown now row none) results
  pure (created_to_unknown, pending_to_unknown)

unfoldable pub reconcile_all :
    Settings
    → ℕ
    → List DisbursementRow
    → (String → DisburseQueryAnswer)
    → Counts
    → Db
    → Option Counts × Db
reconcile_all cfg now [] query n d = (some n, d)
reconcile_all cfg now (row ∷ rows) query n d =
    let (a, d') = reconcile_payout cfg now row.disbursement_id query d in
    elim a [
      | escaped e ↦ (none, d')
      | replied r ↦ reconcile_all cfg now rows query (tally (replied r) n) d'
    ]

unfoldable pub sweep : Settings → ℕ → (String → DisburseQueryAnswer) → Db → Option Counts × Db
sweep cfg now query d = elim (tx (sweep_tx cfg now) d) [
  | raised e d' ↦ (none, d')
  | ok (created_to_unknown, pending_to_unknown) d' ↦
      reconcile_all cfg now (rows_where (is_due cfg now) d'.disbursements) query
        (record {
          created_to_unknown = created_to_unknown;
          pending_to_unknown = pending_to_unknown;
          reconciled = 0;
          checked = 0;
        })
        d'
]
