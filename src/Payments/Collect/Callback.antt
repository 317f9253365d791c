-- ===== src/Payments/Collect/Callback.antt =====
-- The callback handler of services/payments/core/payments.py.
use devops_g_9_tillflow.Base.{
  ℕ, String, Bool, true, false, not, ◌&&◌, Option, none, some, ◌==◌, holds_text, if◌then◌else◌,
}
use devops_g_9_tillflow.Base.Integers.{ℤ, is_number}
use devops_g_9_tillflow.Base.Table.{find?, any_where}
use devops_g_9_tillflow.Payments.States.{PaymentState, is_terminal, same_state}
use devops_g_9_tillflow.Payments.Tables.{
  Outcome, CallbackEvent, PaymentRow, CallbackKind, AnomalyKind, Severity, Db,
}
use devops_g_9_tillflow.Payments.Tx.{
  Tx, ok, raised, integrity_error, after, pure, gets, tx, ◌>>=◌, ◌>>◌,
}
use devops_g_9_tillflow.Payments.Store.{anomaly, record_callback, record_unmatched}
use devops_g_9_tillflow.Payments.Service.{
  Applied, unmatched, under_review, unconfirmed, conflict, Body, Answer, escaped, reply, Settings,
  QueryAnswer, ParsedCallback, status, timeout, unknown_reference,
}
use devops_g_9_tillflow.Payments.Collect.Outcomes.{move_to_unknown, to_review, apply_outcome}

abbrev pub has_ref : String → PaymentRow → Bool
has_ref provider_ref p = holds_text p.provider_ref provider_ref

-- SELECT * FROM payments WHERE provider_ref = ?
unfoldable pub payment_by_ref : String → Db → Option PaymentRow
payment_by_ref provider_ref d = find? (has_ref provider_ref) d.payments

pub data Confirmation : Type 0 where
  confirmed contradicted inconclusive : Confirmation

unfoldable pub confirm_success : QueryAnswer → Confirmation
confirm_success timeout = inconclusive
confirm_success unknown_reference = inconclusive
confirm_success (status s) = elim s.outcome [
  | Outcome.succeeded ↦ confirmed
  | Outcome.declined ↦ contradicted
  | Outcome.expired ↦ contradicted
  | _ ↦ inconclusive
]

unfoldable pub is_success : Outcome → Bool
is_success Outcome.succeeded = true
is_success _ = false

-- `event.amount_minor == payment["amount_minor"]`
unfoldable pub same_amount : Option ℤ → ℕ → Bool
same_amount none amount = false
same_amount (some z) amount = is_number z amount

-- A success that the status query did not bear out.
unfoldable pub doubt_success :
    ℕ → PaymentRow → CallbackEvent → Option Confirmation → Tx Applied → Tx Applied
doubt_success now payment event (some contradicted) go_on = do
  anomaly AnomalyKind.unconfirmed_success Severity.critical (some payment.payment_id)
      (some event.provider_ref) now
  pure Applied.contradicted
doubt_success now payment event (some inconclusive) go_on =
    if same_state payment.state PaymentState.pending
    then move_to_unknown now payment (some event.raw_code) >> pure unconfirmed
    else pure unconfirmed
doubt_success now payment event _ go_on = go_on

-- What a callback does to the payment that it names.
unfoldable pub apply_to_payment : ℕ → CallbackEvent → Option Confirmation → PaymentRow → Tx Applied
apply_to_payment now event confirmation payment =
    let go_on =
      apply_outcome now payment event.outcome event.decline_reason event.receipt
        (some event.raw_code) in
    if is_success event.outcome && not (is_terminal payment.state)
    then (if same_amount event.amount_minor payment.amount_minor
        then doubt_success now payment event confirmation go_on
        else (to_review now payment >> pure under_review))
    else go_on

-- A callback for a payment that was found: the audit row first.
unfoldable pub apply_found : ℕ → CallbackEvent → Option Confirmation → PaymentRow → Tx Applied
apply_found now event confirmation payment =
    record_callback (record {
      kind = CallbackKind.stk;
      provider_ref = event.provider_ref;
      payload_sha256 = event.payload_sha256;
      outcome = event.outcome;
      raw_code = event.raw_code;
      received_at = now;
    })
    >> apply_to_payment now event confirmation payment

-- The two ways of `_apply_callback`: no payment has the reference, or one has.
unfoldable pub apply_row : ℕ → CallbackEvent → Option Confirmation → Option PaymentRow → Tx Applied
apply_row now event confirmation none =
    record_unmatched (record {
      kind = CallbackKind.stk;
      provider_ref = event.provider_ref;
      payload_sha256 = event.payload_sha256;
      outcome = event.outcome;
      raw_code = event.raw_code;
      amount_minor = event.amount_minor;
      received_at = now;
    })
    >> pure unmatched
apply_row now event confirmation (some payment) = apply_found now event confirmation payment

unfoldable pub apply_callback : ℕ → CallbackEvent → Option Confirmation → Tx Applied
unfolding apply_row
apply_callback now event confirmation = do
  found ← gets (payment_by_ref event.provider_ref)
  apply_row now event confirmation found

-- Whether the success is put to the provider before it is applied.
unfoldable pub wants_confirmation : Settings → CallbackEvent → Option PaymentRow → Bool
wants_confirmation cfg event none = false
wants_confirmation cfg event (some existing) =
    is_success event.outcome && not (is_terminal existing.state) && cfg.confirm_success_with_query

unfoldable pub confirmation_for : Settings → CallbackEvent → QueryAnswer → Db → Option Confirmation
confirmation_for cfg event query d =
    if wants_confirmation cfg event (payment_by_ref event.provider_ref d)
    then some (confirm_success query)
    else none

-- `try: with self.store.tx() … except db.IntegrityError: …`
unfoldable pub accept_callback : ℕ → CallbackEvent → Option Confirmation → Db → Answer × Db
accept_callback now event confirmation d = elim (tx (apply_callback now event confirmation) d) [
  | ok result d' ↦ (reply 200 (Body.ack result), d')
  | raised integrity_error d' ↦ (
    reply 200 (Body.ack conflict),
    after (
        tx
          (anomaly AnomalyKind.constraint_violation Severity.critical none (some event.provider_ref)
            now)
          d'),
  )
  | raised e d' ↦ (escaped e, d')
]

unfoldable pub handle_callback :
    Settings
    → ℕ
    → (remote_addr : String) (parsed : ParsedCallback) (query : QueryAnswer) → Db
    → Answer × Db
handle_callback cfg now remote_addr parsed query d =
    if any_where (λ ip. ip == remote_addr) cfg.callback_allowed_ips
    then elim parsed [
      | ParsedCallback.not_authentic ↦ (reply 403 (Body.error "callback_not_authentic"), d)
      | ParsedCallback.malformed ↦ (
        reply 400 (Body.error "callback_malformed"),
        after (tx (anomaly AnomalyKind.malformed_callback Severity.warning none none now) d),
      )
      | ParsedCallback.event event ↦
          accept_callback now event (confirmation_for cfg event query d) d
    ]
    else (reply 403 (Body.error "source_not_allowed"), d)
