-- ===== src/Payments/System/Tests.antt =====
-- The properties of the collections on the payment of Run.
use devops_g_9_tillflow.Base.{◌≡◌, refl, true, some, String, [], ◌∷◌, if◌then◌else◌}
use devops_g_9_tillflow.Base.Table.{In, sum_of}
use devops_g_9_tillflow.Payments.States.{PaymentState}
use devops_g_9_tillflow.Payments.Tables.{PaymentRow, Db, empty}
use devops_g_9_tillflow.Payments.Service.{ChargeAnswer, QueryAnswer, timeout}
use devops_g_9_tillflow.Payments.Collect.Reconcile.{credit_count}
use devops_g_9_tillflow.Payments.Quiet.{is_succeeded}
use devops_g_9_tillflow.Payments.Credit.{credited, collected}
use devops_g_9_tillflow.Payments.System.{here}
use devops_g_9_tillflow.Payments.Service.{Body, replied}
use devops_g_9_tillflow.Payments.Collect.Create.{Hashes, create_parsed}
use devops_g_9_tillflow.Payments.Collect.Reconcile.{sweep, reconcile_payment}
use devops_g_9_tillflow.Payments.Credit.Replay.{repeated_request_replays}
use devops_g_9_tillflow.Payments.Credit.Waiting.{waiting_decides_nothing}
use devops_g_9_tillflow.Payments.Waiting.{WaitedDb}
use devops_g_9_tillflow.Payments.System.Safety.{Onward}
use devops_g_9_tillflow.Payments.System.Books.{
  one_credit_per_success, credits_sum_to_collections, one_live_payment_per_sale,
  reference_names_one_payment,
}
use devops_g_9_tillflow.Payments.System.Progress.{payments_move_legally, terminal_payments_stay}
use devops_g_9_tillflow.Payments.System.Run.{
  cfg, request, row, succeeded_row, answer, pending_row, opened_db, pending_body, pending_db,
  paid_db, opened-runs, pending-runs, to_opened, from_opened, to_paid, opened-row, paid-row,
  same_sale, succeeded_is_terminal,
}

one_credit_per_success_example :
    credit_count "pay-1" paid_db ≡ (if is_succeeded PaymentState.succeeded then 1 else 0)
one_credit_per_success_example = one_credit_per_success cfg to_paid succeeded_row paid-row

credits_sum_to_collections_example :
    sum_of credited paid_db.ledger_entries ≡ sum_of collected paid_db.payments
credits_sum_to_collections_example = credits_sum_to_collections cfg to_paid

one_live_payment_per_sale_example : succeeded_row ≡ succeeded_row
one_live_payment_per_sale_example =
    one_live_payment_per_sale cfg to_paid paid-row paid-row same_sale

reference_names_one_payment_example : succeeded_row ≡ succeeded_row
reference_names_one_payment_example =
    reference_names_one_payment cfg to_paid paid-row paid-row refl refl

payments_move_legally_example : Onward paid_db row
payments_move_legally_example = payments_move_legally cfg to_opened from_opened row opened-row

terminal_payments_stay_example :
    (q : PaymentRow) × In q paid_db.payments
    × (q.payment_id ≡ "pay-1")
    × (q.state ≡ PaymentState.succeeded)
terminal_payments_stay_example =
    terminal_payments_stay cfg to_paid here succeeded_row paid-row succeeded_is_terminal

abbrev hashes : Hashes
hashes = record { adapter_key = λ t o k. k; fingerprint = λ r. "fp-1" }

repeated_request_replays_example :
    create_parsed hashes cfg 200 202 "pay-2" "key-0123456789abc" request
      ChargeAnswer.outcome_unknown pending_db
    ≡ (
      replied (record { status = 200; body = Body.created pending_body; replayed = true }),
      [],
      pending_db,
    )
repeated_request_replays_example =
    repeated_request_replays hashes cfg "key-0123456789abc" request 100 102 "pay-1" answer empty
      opened_db pending_db pending_body opened-runs pending-runs 200 202 "pay-2"
      ChargeAnswer.outcome_unknown

-- The payment whose callback did not come, and a provider that does not answer.
abbrev unknown_row : PaymentRow
unknown_row = record pending_row { state = PaymentState.unknown; unknown_since = some 400 }

abbrev unknown_db : Db
unknown_db = record pending_db { payments = unknown_row ∷ [] }

abbrev silence : String → QueryAnswer
silence ref = timeout

waiting_decides_nothing_example :
    WaitedDb unknown_db (reconcile_payment cfg 100000 "pay-1" silence unknown_db).1
    × WaitedDb unknown_db (sweep cfg 100000 silence unknown_db).1
    × sum_of collected (reconcile_payment cfg 100000 "pay-1" silence unknown_db).1.payments
      ≡ sum_of collected unknown_db.payments
    × sum_of collected (sweep cfg 100000 silence unknown_db).1.payments
      ≡ sum_of collected unknown_db.payments
waiting_decides_nothing_example =
    waiting_decides_nothing cfg 100000 silence "pay-1" unknown_db (λ ref. tt)
