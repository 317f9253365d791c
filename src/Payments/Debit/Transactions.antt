-- ===== src/Payments/Debit/Transactions.antt =====
-- The transactions of payouts.py that may apply a success: the result callback and a reconciliation.
use devops_g_9_tillflow.Base.{
  ℕ, String, ◌≡◌, refl, subst, ap, inl, inr, not, ◌&&◌, some, Bool-cases, Option-cases,
}
use devops_g_9_tillflow.Base.Table.{find?}
use devops_g_9_tillflow.Base.Table.Update.{find?-In}
use devops_g_9_tillflow.Payments.States.{is_terminal_disbursement}
use devops_g_9_tillflow.Payments.Tables.{
  DisbursementRow, DisbursementEvent, DisbursementStatus, PublicBody, CallbackRow, UnmatchedRow, Db,
}
use devops_g_9_tillflow.Payments.Tx.{Tx, ok, after, pure, >>=-ok, ◌>>=◌, ◌>>◌}
use devops_g_9_tillflow.Payments.Tx.Keeps.{Keeps-pure, Keeps-bind}
use devops_g_9_tillflow.Payments.Store.{record_callback, record_unmatched}
use devops_g_9_tillflow.Payments.Store.Disbursement.{has_id, disbursement_by_id}
use devops_g_9_tillflow.Payments.Service.{Applied, unmatched, under_review}
use devops_g_9_tillflow.Payments.Collect.Callback.{is_success, same_amount}
use devops_g_9_tillflow.Payments.Payout.Outcomes.{to_review, apply_outcome}
use devops_g_9_tillflow.Payments.Payout.Create.{public_body}
use devops_g_9_tillflow.Payments.Payout.Results.{
  has_originator, disbursement_by_originator, fill_conversation, apply_to_disbursement,
  apply_result_row, apply_result,
}
use devops_g_9_tillflow.Payments.Payout.Reconcile.{apply_status}
use devops_g_9_tillflow.Payments.Debit.{steady_frame, IsSteady, Balanced}
use devops_g_9_tillflow.Payments.Debit.Statements.{
  record_callback-IsSteady, record_unmatched-IsSteady,
}
use devops_g_9_tillflow.Payments.Debit.Service.{to_review-IsSteady, public_body-IsSteady}
use devops_g_9_tillflow.Payments.Debit.Advance.{Advanced, Advanced-trans, steady_ok}
use devops_g_9_tillflow.Payments.Debit.Shown.{Shown, In-Shown}
use devops_g_9_tillflow.Payments.Debit.Settle.{apply_outcome_ok}
use devops_g_9_tillflow.Payments.Debit.Writes.{Shown-callback, filled}

module _ (now : ℕ) (p : DisbursementRow) (ev : DisbursementEvent) where
  abbrev outcome : Tx Applied
  outcome = apply_outcome now p ev.outcome ev.failure_reason ev.receipt (some ev.raw_code)

  filled_outcome :
      (d : Db) {a : Applied} {e : Db}
      → Balanced d
      → Shown p d
      → (fill_conversation ev.conversation_id p >> outcome) d ≡ ok a e
      → Advanced d e
  filled_outcome d b s h =
      let r = >>=-ok (fill_conversation ev.conversation_id p) (λ _. outcome) d h in
      let f = filled p ev.conversation_id p.conversation_id d refl b s r.2 in
      Advanced-trans d r.1 _ f.0 (
        apply_outcome_ok now p ev.outcome ev.failure_reason ev.receipt (some ev.raw_code) r.1
          f.0.balanced f.1 r.3)

  apply_to_disbursement_ok :
      (d : Db) {a : Applied} {e : Db}
      → Balanced d
      → Shown p d
      → apply_to_disbursement now ev p d ≡ ok a e
      → Advanced d e
  unfolding apply_to_disbursement
  apply_to_disbursement_ok d b s h =
      elim (Bool-cases (
        is_success ev.outcome
        && not (is_terminal_disbursement p.state)
        && not (same_amount ev.amount_minor p.amount_minor))) [
          | inl doubtful ↦
              steady_ok (to_review now p >> pure under_review) d
                (Keeps-bind _ _ (to_review-IsSteady now p) (λ _. Keeps-pure under_review)) b
                (rw doubtful at h)
          | inr sound ↦ filled_outcome d b s (rw sound at h)
        ]

  found_ok :
      (r : CallbackRow) (d : Db) {a : Applied} {e : Db}
      → Balanced d
      → Shown p d
      → (record_callback r >> apply_to_disbursement now ev p) d ≡ ok a e
      → Advanced d e
  found_ok r d b s h =
      let k = >>=-ok (record_callback r) (λ _. apply_to_disbursement now ev p) d h in
      let q = steady_ok (record_callback r) d (record_callback-IsSteady r) b k.2 in
      Advanced-trans d k.1 _ q (
        apply_to_disbursement_ok k.1 q.balanced
          (subst (Shown p) (ap (λ x. after x) k.2) (Shown-callback p r d s)) k.3)

unmatched-IsSteady : (r : UnmatchedRow) → IsSteady (record_unmatched r >> pure unmatched)
unmatched-IsSteady r = Keeps-bind _ _ (record_unmatched-IsSteady r) (λ _. Keeps-pure unmatched)

-- `_apply_result`, for any event.
pub apply_result_ok :
    (now : ℕ) (ev : DisbursementEvent) (d : Db) {a : Applied} {e : Db}
    → Balanced d
    → apply_result now ev d ≡ ok a e
    → Advanced d e
unfolding apply_result disbursement_by_originator apply_result_row
apply_result_ok now ev d b h =
    elim (Option-cases (find? (has_originator ev.originator_conversation_id) d.disbursements)) [
      | inl q ↦ steady_ok _ d (unmatched-IsSteady _) b (rw (q, apply_result_row) at h)
      | inr (p, q) ↦
          found_ok now p ev _ d b (In-Shown p d (find?-In _ d.disbursements q).0)
            (rw (q, apply_result_row) at h)
    ]

-- The transaction of `reconcile_payout`.
pub apply_status_ok :
    (now : ℕ) (id : String) (s : DisbursementStatus) (d : Db) {a : PublicBody × Applied} {e : Db}
    → Balanced d
    → apply_status now id s d ≡ ok a e
    → Advanced d e
unfolding apply_status disbursement_by_id
apply_status_ok now id s d b h = elim (Option-cases (find? (has_id id) d.disbursements)) [
  | inl q ↦ absurd (cc (rw q at h))
  | inr (p, q) ↦
      let r =
        >>=-ok (apply_outcome now p s.outcome s.failure_reason s.receipt s.raw_code)
          (λ result. public_body id >>= λ body. pure (body, result)) d (rw q at h) in
      let k =
        apply_outcome_ok now p s.outcome s.failure_reason s.receipt s.raw_code d b
          (In-Shown p d (find?-In (has_id id) d.disbursements q).0) r.2 in
      Advanced-trans d r.1 _ k (
        steady_ok (public_body id >>= λ body. pure (body, r.0)) r.1
          (Keeps-bind _ _ (public_body-IsSteady id) (λ body. Keeps-pure (body, r.0))) k.balanced
          r.3)
]
