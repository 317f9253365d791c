-- ===== src/Payments/Store/Disbursement.antt =====
-- The statements on the table `disbursements`: `Store.transition` with kind "disbursement", and the
-- INSERT and UPDATE statements of services/payments/core/payouts.py.
use devops_g_9_tillflow.Base.{
  ℕ, String, Bool, Option, some, List, [], ◌∷◌, ◌==◌, ◌&&◌, nat_eq, if◌then◌else◌,
}
use devops_g_9_tillflow.Base.Table.{find?, update_where, count_where}
use devops_g_9_tillflow.Payments.States.{
  DisbursementState, same_disbursement_state, check_disbursement_transition,
}
use devops_g_9_tillflow.Payments.Tables.{FailureReason, DisbursementRow, Db}
use devops_g_9_tillflow.Payments.Schema.{disbursements_ok}
use devops_g_9_tillflow.Payments.Tx.{
  Tx, integrity_error, illegal_transition, stale_state, pure, raise, ◌>>=◌,
}

pub data Field : Type 0 where
  set_conversation_id : String → Field
  set_pending_since set_unknown_since set_next_reconcile_at set_reconcile_attempts : ℕ → Field
  set_failure_reason : FailureReason → Field
  set_receipt set_raw_code : Option String → Field

unfoldable pub assign : Field → DisbursementRow → DisbursementRow
assign (set_conversation_id v) p = record p { conversation_id = some v }
assign (set_pending_since v) p = record p { pending_since = some v }
assign (set_unknown_since v) p = record p { unknown_since = some v }
assign (set_next_reconcile_at v) p = record p { next_reconcile_at = some v }
assign (set_reconcile_attempts v) p = record p { reconcile_attempts = v }
assign (set_failure_reason v) p = record p { failure_reason = some v }
assign (set_receipt v) p = record p { receipt = v }
assign (set_raw_code v) p = record p { raw_code = v }

unfoldable pub assign_all : List Field → DisbursementRow → DisbursementRow
assign_all [] p = p
assign_all (f ∷ fs) p = assign_all fs (assign f p)

unfoldable pub update_disbursements :
    (DisbursementRow → Bool) → (DisbursementRow → DisbursementRow) → Tx ℕ
update_disbursements c f d =
    let rows = update_where c f d.disbursements in
    if disbursements_ok rows
    then pure (count_where c d.disbursements) (record d { disbursements = rows })
    else raise integrity_error d

unfoldable pub insert_disbursement : DisbursementRow → Tx (Unit {0})
insert_disbursement p d =
    if disbursements_ok (p ∷ d.disbursements)
    then pure tt (record d { disbursements = p ∷ d.disbursements })
    else raise integrity_error d

abbrev pub has_id : String → DisbursementRow → Bool
has_id disbursement_id p = p.disbursement_id == disbursement_id

abbrev pub is_current : String → DisbursementState → DisbursementRow → Bool
is_current disbursement_id current p =
    p.disbursement_id == disbursement_id && same_disbursement_state p.state current

-- SELECT * FROM disbursements WHERE disbursement_id = ?
unfoldable pub disbursement_by_id : String → Db → Option DisbursementRow
disbursement_by_id disbursement_id d = find? (has_id disbursement_id) d.disbursements

abbrev pub moved : DisbursementState → ℕ → List Field → DisbursementRow → DisbursementRow
moved target now fields p = assign_all fields (record p { state = target; updated_at = now })

-- `Store.transition`, for a disbursement.
unfoldable pub transition :
    String → DisbursementState → DisbursementState → ℕ → List Field → Tx (Unit {0})
transition record_id current target now fields =
    if check_disbursement_transition current target
    then (do
      rowcount ← update_disbursements (is_current record_id current) (moved target now fields)
      if nat_eq rowcount 1 then pure tt else raise stale_state)
    else raise illegal_transition
