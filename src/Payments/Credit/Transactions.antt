-- ===== src/Payments/Credit/Transactions.antt =====
-- The transactions of payments.py that may apply a success keep the books balanced.
use devops_g_9_tillflow.Base.{
  ℕ, String, ◌≡◌, sym, ◌∙◌, subst, ap, inl, inr, true, false, Bool, Option, none, some, arith,
  Option-cases, not, ◌&&◌, if◌then◌else◌,
}
use devops_g_9_tillflow.Base.Table.{In, find?}
use devops_g_9_tillflow.Base.Table.Update.{find?-In}
use devops_g_9_tillflow.Payments.States.{is_terminal}
use devops_g_9_tillflow.Payments.Tables.{
  PaymentRow, PaymentStatus, CallbackEvent, PublicBody, CallbackRow, UnmatchedRow, Db,
}
use devops_g_9_tillflow.Payments.Tx.{Tx, ok, after, pure, >>=-ok, ◌>>=◌, ◌>>◌}
use devops_g_9_tillflow.Payments.Store.{record_callback, record_unmatched}
use devops_g_9_tillflow.Payments.Store.Payment.{payment_by_id, has_id}
use devops_g_9_tillflow.Payments.Service.{Applied}
use devops_g_9_tillflow.Payments.Collect.Outcomes.{apply_outcome, to_review}
use devops_g_9_tillflow.Payments.Collect.Callback.{
  Confirmation, payment_by_ref, has_ref, apply_found, apply_callback, apply_to_payment, apply_row,
  doubt_success, is_success, same_amount,
}
use devops_g_9_tillflow.Payments.Collect.Create.{public_body}
use devops_g_9_tillflow.Payments.Collect.Reconcile.{apply_status}
use devops_g_9_tillflow.Payments.Quiet.{quiet_frame, IsQuiet}
use devops_g_9_tillflow.Payments.Tx.Keeps.{Keeps-pure, Keeps-bind}
use devops_g_9_tillflow.Payments.Quiet.Statements.{
  record_callback-IsQuiet, record_unmatched-IsQuiet,
}
use devops_g_9_tillflow.Payments.Quiet.Service.{
  quiet_rules, move_to_unknown-IsQuiet, to_review-IsQuiet, public_body-IsQuiet,
}
use devops_g_9_tillflow.Payments.Credit.{Balanced}
use devops_g_9_tillflow.Payments.Credit.Advance.{Advanced, Advanced-trans, quiet_ok}
use devops_g_9_tillflow.Payments.Credit.Settle.{apply_outcome_ok}

contradicted-IsQuiet :
    (now : ℕ) (p : PaymentRow) (ev : CallbackEvent) (go_on : Tx Applied)
    → IsQuiet (doubt_success now p ev (some Confirmation.contradicted) go_on)
unfolding doubt_success
contradicted-IsQuiet now p ev go_on = search quiet_rules

inconclusive_callback-IsQuiet :
    (now : ℕ) (p : PaymentRow) (ev : CallbackEvent) (go_on : Tx Applied)
    → IsQuiet (doubt_success now p ev (some Confirmation.inconclusive) go_on)
unfolding doubt_success
inconclusive_callback-IsQuiet now p ev go_on = search (quiet_rules, move_to_unknown-IsQuiet)

doubt_success_ok :
    (now : ℕ) (p : PaymentRow) (ev : CallbackEvent) (c : Option Confirmation) (go_on : Tx Applied)
    (d : Db) {a : Applied} {e : Db}
    → Balanced d
    → (go_on d ≡ ok a e → Advanced d e)
    → doubt_success now p ev c go_on d ≡ ok a e
    → Advanced d e
unfolding doubt_success
doubt_success_ok now p ev none go_on d b g h = g h
doubt_success_ok now p ev (some Confirmation.confirmed) go_on d b g h = g h
doubt_success_ok now p ev (some Confirmation.contradicted) go_on d b g h =
    quiet_ok _ d (contradicted-IsQuiet now p ev go_on) b h
doubt_success_ok now p ev (some Confirmation.inconclusive) go_on d b g h =
    quiet_ok _ d (inconclusive_callback-IsQuiet now p ev go_on) b h

if_ok :
    {A : Type 0} (t : Bool) (m n : Tx A) (d : Db) {a : A} {e : Db}
    → (m d ≡ ok a e → Advanced d e)
    → (n d ≡ ok a e → Advanced d e)
    → (if t then m else n) d ≡ ok a e
    → Advanced d e
if_ok true m n d f g h = f h
if_ok false m n d f g h = g h

apply_to_payment_ok :
    (now : ℕ) (p : PaymentRow) (ev : CallbackEvent) (c : Option Confirmation) (d : Db) {a : Applied}
    {e : Db}
    → Balanced d
    → In p d.payments
    → apply_to_payment now ev c p d ≡ ok a e
    → Advanced d e
unfolding apply_to_payment
apply_to_payment_ok now p ev c d b m h =
    let go_on = apply_outcome now p ev.outcome ev.decline_reason ev.receipt (some ev.raw_code) in
    let review : Tx Applied = to_review now p >> pure Applied.under_review in
    if_ok (is_success ev.outcome && not (is_terminal p.state))
      (if same_amount ev.amount_minor p.amount_minor
        then doubt_success now p ev c go_on
        else review)
      go_on d
      (if_ok (same_amount ev.amount_minor p.amount_minor) (doubt_success now p ev c go_on) review d
        (doubt_success_ok now p ev c go_on d b
          (apply_outcome_ok now p ev.outcome ev.decline_reason ev.receipt (some ev.raw_code) d b m))
        (quiet_ok review d
          (Keeps-bind _ _ (to_review-IsQuiet now p) (λ _. Keeps-pure Applied.under_review)) b))
      (apply_outcome_ok now p ev.outcome ev.decline_reason ev.receipt (some ev.raw_code) d b m) h

payments-record_callback :
    (r : CallbackRow) (d : Db) → (after (record_callback r d)).payments ≡ d.payments
unfolding record_callback
payments-record_callback r d = ground arith

found_ok :
    (now : ℕ) (p : PaymentRow) (ev : CallbackEvent) (c : Option Confirmation) (d : Db) {a : Applied}
    {e : Db}
    → Balanced d
    → In p d.payments
    → apply_found now ev c p d ≡ ok a e
    → Advanced d e
unfolding apply_found
found_ok now p ev c d b m h =
    let r = >>=-ok (record_callback _) (λ _. apply_to_payment now ev c p) d h in
    let q = quiet_ok _ d (record_callback-IsQuiet _) b r.2 in
    Advanced-trans d r.1 _ q (
      apply_to_payment_ok now p ev c r.1 q.balanced
        (subst (In p) (sym (payments-record_callback _ d) ∙ ap (λ x. (after x).payments) r.2) m)
        r.3)

unmatched-IsQuiet : (row : UnmatchedRow) → IsQuiet (record_unmatched row >> pure Applied.unmatched)
unmatched-IsQuiet row = search (quiet_rules, record_unmatched-IsQuiet)

-- `_apply_callback`, for any event and any confirmation.
pub apply_callback_ok :
    (now : ℕ) (ev : CallbackEvent) (c : Option Confirmation) (d : Db) {a : Applied} {e : Db}
    → Balanced d
    → apply_callback now ev c d ≡ ok a e
    → Advanced d e
unfolding apply_callback payment_by_ref
apply_callback_ok now ev c d b h =
    elim (Option-cases (find? (has_ref ev.provider_ref) d.payments)) [
      | inl q ↦ quiet_ok _ d (unmatched-IsQuiet _) b (rw (q, apply_row) at h)
      | inr (p, q) ↦ found_ok now p ev c d b (find?-In _ d.payments q).0 (rw (q, apply_row) at h)
    ]

-- The transaction of `reconcile_payment`.
pub apply_status_ok :
    (now : ℕ) (id : String) (s : PaymentStatus) (d : Db) {a : PublicBody × Applied} {e : Db}
    → Balanced d
    → apply_status now id s d ≡ ok a e
    → Advanced d e
unfolding apply_status payment_by_id
apply_status_ok now id s d b h = elim (Option-cases (find? (has_id id) d.payments)) [
  | inl q ↦ absurd (cc (rw q at h))
  | inr (p, q) ↦
      let r =
        >>=-ok (apply_outcome now p s.outcome s.decline_reason s.receipt s.raw_code)
          (λ result. public_body id >>= λ body. pure (body, result)) d (rw q at h) in
      let q =
        apply_outcome_ok now p s.outcome s.decline_reason s.receipt s.raw_code d b
          (find?-In (has_id id) d.payments q).0 r.2 in
      Advanced-trans d r.1 _ q (
        quiet_ok (public_body id >>= λ body. pure (body, r.0)) r.1
          (Keeps-bind _ _ (public_body-IsQuiet id) (λ body. Keeps-pure (body, r.0))) q.balanced r.3)
]
