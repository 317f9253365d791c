-- ===== src/Payments/Collect/Reconcile.antt =====
-- Reconciliation and reads in services/payments/core/payments.py.
use devops_g_9_tillflow.Base.{
  ℕ, suc, ◌+◌, String, Bool, true, false, ◌&&◌, ◌||◌, Option, none, some, List, [], ◌∷◌, ◌==◌, leb,
  holds_text, or_default, if◌then◌else◌,
}
use devops_g_9_tillflow.Base.Table.{find?, rows_where, count_where}
use devops_g_9_tillflow.Payments.States.{PaymentState, same_state}
use devops_g_9_tillflow.Payments.Common.{next_backoff, mask_msisdn}
use devops_g_9_tillflow.Payments.Tables.{
  Outcome, PaymentStatus, payment_create, PublicBody, PaymentRow, EntryType, payment_credit,
  LedgerEntry, Db,
}
use devops_g_9_tillflow.Payments.Schema.{same_entry_type}
use devops_g_9_tillflow.Payments.Tx.{Tx, ok, raised, pure, gets, row_of, tx, ◌>>=◌, ◌>>◌}
use devops_g_9_tillflow.Payments.Store.{idem_complete}
use devops_g_9_tillflow.Payments.Store.Payment.{
  update_payments, assign_all, payment_by_id, has_id, transition, set_unknown_since,
  set_next_reconcile_at, set_reconcile_attempts,
}
use devops_g_9_tillflow.Payments.Service.{
  Applied, Body, Answer, replied, escaped, reply, Settings, QueryAnswer, status, timeout,
  unknown_reference,
}
use devops_g_9_tillflow.Payments.Collect.Outcomes.{move_to_unknown, to_review, apply_outcome}
use devops_g_9_tillflow.Payments.Collect.Create.{public_of, public_body}

-- `_find`
abbrev pub is_named : String → PaymentRow → Bool
is_named ident p = p.payment_id == ident || holds_text p.provider_ref ident

unfoldable pub payment_named : String → Db → Option PaymentRow
payment_named ident d = find? (is_named ident) d.payments

-- The credits of a record in the ledger.
abbrev pub is_entry_of : String → EntryType → LedgerEntry → Bool
is_entry_of record_id entry_type e =
    e.record_id == record_id && same_entry_type e.entry_type entry_type

unfoldable pub credit_count : String → Db → ℕ
credit_count record_id d = count_where (is_entry_of record_id payment_credit) d.ledger_entries

unfoldable pub get_payment : String → Db → Answer
get_payment ident d = elim (payment_named ident d) [
  | none ↦ reply 404 (Body.error "not_found")
  | some row ↦ reply 200 (
      Body.view (public_of row) row.tenant_id row.sale_id row.amount_minor row.currency
        (mask_msisdn row.msisdn) row.receipt (credit_count row.payment_id d))
]

-- `now - since >= window`
abbrev pub window_elapsed : Settings → ℕ → PaymentRow → Bool
window_elapsed cfg now row =
    leb (or_default row.unknown_since now + cfg.reconcile_window_seconds) now

-- After the window an UNKNOWN payment goes to review; the result is the state that is reported.
unfoldable pub escalate : Settings → ℕ → PaymentRow → Tx PaymentState
escalate cfg now row =
    if same_state row.state PaymentState.unknown && window_elapsed cfg now row
    then to_review now row >> pure PaymentState.needs_review
    else pure row.state

-- `_inconclusive`
unfoldable pub inconclusive : Settings → ℕ → String → Tx PaymentState
inconclusive cfg now payment_id = do
  found ← gets (payment_by_id payment_id)
  row ← row_of found
  state ← escalate cfg now row
  update_payments (has_id payment_id) (
      assign_all (
        set_reconcile_attempts (row.reconcile_attempts + 1)
        ∷ set_next_reconcile_at (now + next_backoff (row.reconcile_attempts + 1))
        ∷ []))
  pure state

unfoldable pub reply_inconclusive : Settings → ℕ → String → String → Db → Answer × Db
reply_inconclusive cfg now payment_id reason d = elim (tx (inconclusive cfg now payment_id) d) [
  | ok state d' ↦ (reply 200 (Body.payment_not_reconciled payment_id state reason), d')
  | raised e d' ↦ (escaped e, d')
]

-- The transaction that applies a definitive status.
unfoldable pub apply_status : ℕ → String → PaymentStatus → Tx (PublicBody × Applied)
apply_status now payment_id s = do
  found ← gets (payment_by_id payment_id)
  fresh ← row_of found
  result ← apply_outcome now fresh s.outcome s.decline_reason s.receipt s.raw_code
  body ← public_body payment_id
  pure (body, result)

unfoldable pub is_unknown_outcome : Outcome → Bool
is_unknown_outcome Outcome.unknown = true
is_unknown_outcome _ = false

unfoldable pub reconcile_status : Settings → ℕ → String → PaymentStatus → Db → Answer × Db
reconcile_status cfg now payment_id s d =
    if is_unknown_outcome s.outcome
    then reply_inconclusive cfg now payment_id "still_unknown" d
    else elim (tx (apply_status now payment_id s) d) [
      | ok (body, result) d' ↦ (reply 200 (Body.reconciled body result), d')
      | raised e d' ↦ (escaped e, d')
    ]

-- `query` is what the provider answers for the payment's reference, if it is asked.
unfoldable pub reconcile_row : Settings → ℕ → PaymentRow → (String → QueryAnswer) → Db → Answer × Db
reconcile_row cfg now row query d =
    if same_state row.state PaymentState.unknown || same_state row.state PaymentState.needs_review
    then elim row.provider_ref [
      | none ↦ reply_inconclusive cfg now row.payment_id "no_provider_reference" d
      | some ref ↦ elim (query ref) [
        | timeout ↦ reply_inconclusive cfg now row.payment_id "query_timeout" d
        | unknown_reference ↦
            reply_inconclusive cfg now row.payment_id "provider_does_not_know_reference" d
        | status s ↦ reconcile_status cfg now row.payment_id s d
      ]
    ]
    else (reply 200 (Body.payment_not_reconciled row.payment_id row.state "not_unknown"), d)

unfoldable pub reconcile_payment : Settings → ℕ → String → (String → QueryAnswer) → Db → Answer × Db
reconcile_payment cfg now ident query d = elim (payment_named ident d) [
  | none ↦ (reply 404 (Body.error "not_found"), d)
  | some row ↦ reconcile_row cfg now row query d
]

-- `column <= bound`, where NULL is not.
abbrev pub due_by : Option ℕ → ℕ → ℕ → Bool
due_by none wait now = false
due_by (some t) wait now = leb (t + wait) now

abbrev pub is_lost_attempt : Settings → ℕ → PaymentRow → Bool
is_lost_attempt cfg now p =
    same_state p.state PaymentState.created
    && due_by p.initiate_started_at cfg.created_sweep_seconds now

abbrev pub is_lost_callback : Settings → ℕ → PaymentRow → Bool
is_lost_callback cfg now p =
    same_state p.state PaymentState.pending
    && due_by p.pending_since cfg.callback_deadline_seconds now

abbrev pub is_due : Settings → ℕ → PaymentRow → Bool
is_due cfg now p =
    (same_state p.state PaymentState.unknown || same_state p.state PaymentState.needs_review)
    && due_by p.unknown_since cfg.reconcile_sla_seconds now
    && leb (or_default p.next_reconcile_at 0) now

unfoldable pub sweep_attempt : ℕ → PaymentRow → Tx (Unit {0})
sweep_attempt now row = do
  transition row.payment_id PaymentState.created PaymentState.unknown now
      (set_unknown_since now ∷ set_next_reconcile_at (now + next_backoff 0) ∷ [])
  body ← public_body row.payment_id
  idem_complete row.tenant_id payment_create row.idem_key 201 body row.payment_id

-- `for row in rows: step(row); count += 1`
unfoldable pub for_each : (PaymentRow → Tx (Unit {0})) → List PaymentRow → Tx ℕ
for_each step [] = pure 0
for_each step (row ∷ rows) = do step row; n ← for_each step rows; pure (suc n)

-- The first transaction of `sweep`: CREATED and PENDING payments that waited too long.
unfoldable pub sweep_tx : Settings → ℕ → Tx (ℕ × ℕ)
sweep_tx cfg now = do
  attempts ← gets (λ d. rows_where (is_lost_attempt cfg now) d.payments)
  created_to_unknown ← for_each (sweep_attempt now) attempts
  callbacks ← gets (λ d. rows_where (is_lost_callback cfg now) d.payments)
  pending_to_unknown ← for_each (λ row. move_to_unknown now row none) callbacks
  pure (created_to_unknown, pending_to_unknown)

pub record Counts : Type 0 where
  pub created_to_unknown : ℕ
  pub pending_to_unknown : ℕ
  pub reconciled : ℕ
  pub checked : ℕ

abbrev pub was_reconciled : Answer → Bool
was_reconciled (replied r) = elim r.body [ Body.reconciled body result ↦ true | _ ↦ false ]
was_reconciled (escaped e) = false

abbrev pub tally : Answer → Counts → Counts
tally a n = record n {
  checked = n.checked + 1;
  reconciled = if was_reconciled a then n.reconciled + 1 else n.reconciled;
}

-- The loop over the due payments; an exception of one ends the sweep.
unfoldable pub reconcile_all :
    Settings → ℕ → List PaymentRow → (String → QueryAnswer) → Counts → Db → Option Counts × Db
reconcile_all cfg now [] query n d = (some n, d)
reconcile_all cfg now (row ∷ rows) query n d =
    let (a, d') = reconcile_payment cfg now row.payment_id query d in
    elim a [
      | escaped e ↦ (none, d')
      | replied r ↦ reconcile_all cfg now rows query (tally (replied r) n) d'
    ]

unfoldable pub sweep : Settings → ℕ → (String → QueryAnswer) → Db → Option Counts × Db
sweep cfg now query d = elim (tx (sweep_tx cfg now) d) [
  | raised e d' ↦ (none, d')
  | ok (created_to_unknown, pending_to_unknown) d' ↦
      reconcile_all cfg now (rows_where (is_due cfg now) d'.payments) query
        (record {
          created_to_unknown = created_to_unknown;
          pending_to_unknown = pending_to_unknown;
          reconciled = 0;
          checked = 0;
        })
        d'
]
