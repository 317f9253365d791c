-- ===== src/Payments/Store/Payment.antt =====
-- The statements on the table `payments`: `Store.transition` with kind "payment", and the INSERT
-- and UPDATE statements of services/payments/core/payments.py.
use devops_g_9_tillflow.Base.{
  ℕ, String, Bool, Option, some, List, [], ◌∷◌, ◌==◌, ◌&&◌, nat_eq, if◌then◌else◌,
}
use devops_g_9_tillflow.Base.Table.{find?, update_where, count_where}
use devops_g_9_tillflow.Payments.States.{PaymentState, same_state, check_transition}
use devops_g_9_tillflow.Payments.Tables.{DeclineReason, PaymentRow, Db}
use devops_g_9_tillflow.Payments.Schema.{payments_ok}
use devops_g_9_tillflow.Payments.Tx.{
  Tx, integrity_error, illegal_transition, stale_state, pure, raise, ◌>>=◌,
}

-- The columns that callers of `transition` set, and the columns of the plain UPDATE statements.
pub data Field : Type 0 where
  set_provider_ref set_merchant_request_id : String → Field
  set_pending_since set_unknown_since set_next_reconcile_at set_reconcile_attempts : ℕ → Field
  set_decline_reason : Option DeclineReason → Field
  set_receipt set_raw_code : Option String → Field

unfoldable pub assign : Field → PaymentRow → PaymentRow
assign (set_provider_ref v) p = record p { provider_ref = some v }
assign (set_merchant_request_id v) p = record p { merchant_request_id = some v }
assign (set_pending_since v) p = record p { pending_since = some v }
assign (set_unknown_since v) p = record p { unknown_since = some v }
assign (set_next_reconcile_at v) p = record p { next_reconcile_at = some v }
assign (set_reconcile_attempts v) p = record p { reconcile_attempts = v }
assign (set_decline_reason v) p = record p { decline_reason = v }
assign (set_receipt v) p = record p { receipt = v }
assign (set_raw_code v) p = record p { raw_code = v }

unfoldable pub assign_all : List Field → PaymentRow → PaymentRow
assign_all [] p = p
assign_all (f ∷ fs) p = assign_all fs (assign f p)

-- An UPDATE returns its row count, or raises if the table would break a constraint.
unfoldable pub update_payments : (PaymentRow → Bool) → (PaymentRow → PaymentRow) → Tx ℕ
update_payments c f d =
    let rows = update_where c f d.payments in
    if payments_ok rows
    then pure (count_where c d.payments) (record d { payments = rows })
    else raise integrity_error d

unfoldable pub insert_payment : PaymentRow → Tx (Unit {0})
insert_payment p d =
    if payments_ok (p ∷ d.payments)
    then pure tt (record d { payments = p ∷ d.payments })
    else raise integrity_error d

abbrev pub has_id : String → PaymentRow → Bool
has_id payment_id p = p.payment_id == payment_id

abbrev pub is_current : String → PaymentState → PaymentRow → Bool
is_current payment_id current p = p.payment_id == payment_id && same_state p.state current

-- SELECT * FROM payments WHERE payment_id = ?
unfoldable pub payment_by_id : String → Db → Option PaymentRow
payment_by_id payment_id d = find? (has_id payment_id) d.payments

abbrev pub moved : PaymentState → ℕ → List Field → PaymentRow → PaymentRow
moved target now fields p = assign_all fields (record p { state = target; updated_at = now })

-- `Store.transition`: the only writer of a state, by compare-and-swap.
unfoldable pub transition : String → PaymentState → PaymentState → ℕ → List Field → Tx (Unit {0})
transition record_id current target now fields =
    if check_transition current target
    then (do
      rowcount ← update_payments (is_current record_id current) (moved target now fields)
      if nat_eq rowcount 1 then pure tt else raise stale_state)
    else raise illegal_transition
