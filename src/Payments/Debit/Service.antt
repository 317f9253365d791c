-- ===== src/Payments/Debit/Service.antt =====
-- The operations of payouts.py that are steady: all that does not apply a success.
use devops_g_9_tillflow.Base.{ℕ, String, ◌≡◌, refl, false, Option, List, [], ◌∷◌, suc}
use devops_g_9_tillflow.Payments.States.{DisbursementState}
use devops_g_9_tillflow.Payments.Tables.{DisbursementRow, EventType, FailureReason}
use devops_g_9_tillflow.Payments.Tx.{Tx}
use devops_g_9_tillflow.Payments.Tx.Keeps.{
  Keeps-pure, Keeps-raise, Keeps-gets, Keeps-row_of, Keeps-bind, Keeps-if, Keeps-on_illegal,
}
use devops_g_9_tillflow.Payments.Store.Disbursement.{
  Field, has_id, assign_all, update_disbursements,
}
use devops_g_9_tillflow.Payments.Service.{Settings, DisburseAnswer}
use devops_g_9_tillflow.Payments.Payout.Outcomes.{
  move, trip, event, fail, move_to_unknown, leave_created, leave_pending, to_review,
}
use devops_g_9_tillflow.Payments.Payout.Create.{
  public_body, record_answer, keep_conversation, finish_create,
}
use devops_g_9_tillflow.Payments.Payout.Reconcile.{
  escalate, inconclusive, sweep_attempt, for_each, sweep_tx,
}
use devops_g_9_tillflow.Payments.Debit.{steady_frame, IsSteady, is_paid}
use devops_g_9_tillflow.Payments.Debit.Statements.{
  idem_complete-IsSteady, outbox-IsSteady, anomaly-IsSteady, set_flag-IsSteady,
  update_disbursements-IsSteady, assign_all-Steady, transition-IsSteady,
}

pub ruleset steady_rules = (
  Keeps-pure, Keeps-raise, Keeps-gets, Keeps-row_of, Keeps-bind, Keeps-if, idem_complete-IsSteady,
  outbox-IsSteady, anomaly-IsSteady, set_flag-IsSteady,
)

pub move-IsSteady :
    (now : ℕ) (row : DisbursementRow) (t : DisbursementState) (fs : List Field)
    → is_paid t ≡ false
    → IsSteady (move now row t fs)
unfolding move
move-IsSteady now row t fs u = transition-IsSteady _ _ _ now fs u

pub move_to_unknown-IsSteady :
    (now : ℕ) (row : DisbursementRow) (raw : Option String) → IsSteady (move_to_unknown now row raw)
unfolding move_to_unknown is_paid
move_to_unknown-IsSteady now row raw = move-IsSteady now row _ _ refl

pub event-IsSteady : (now : ℕ) (row : DisbursementRow) (e : EventType) → IsSteady (event now row e)
unfolding event
event-IsSteady now row e = outbox-IsSteady _ _ _ _ _

trip-IsSteady : (now : ℕ) (id : String) → IsSteady (trip now id)
unfolding trip
trip-IsSteady now id = search steady_rules

to_failed-IsSteady :
    (now : ℕ) (row : DisbursementRow) (fs : List Field)
    → IsSteady (move now row DisbursementState.failed fs)
unfolding is_paid
to_failed-IsSteady now row fs = move-IsSteady now row _ fs refl

to_pending-IsSteady :
    (now : ℕ) (row : DisbursementRow) (fs : List Field)
    → IsSteady (move now row DisbursementState.pending fs)
unfolding is_paid
to_pending-IsSteady now row fs = move-IsSteady now row _ fs refl

to_needs_review-IsSteady :
    (now : ℕ) (row : DisbursementRow) (fs : List Field)
    → IsSteady (move now row DisbursementState.needs_review fs)
unfolding is_paid
to_needs_review-IsSteady now row fs = move-IsSteady now row _ fs refl

to_unknown-IsSteady :
    (now : ℕ) (row : DisbursementRow) (fs : List Field)
    → IsSteady (move now row DisbursementState.unknown fs)
unfolding is_paid
to_unknown-IsSteady now row fs = move-IsSteady now row _ fs refl

pub fail-IsSteady :
    (now : ℕ) (row : DisbursementRow) (reason : FailureReason) (raw : Option String)
    → IsSteady (fail now row reason raw)
unfolding fail
fail-IsSteady now row reason raw =
    search (steady_rules, to_failed-IsSteady, event-IsSteady, trip-IsSteady) depth 12

pub leave_created-IsSteady : (now : ℕ) (row : DisbursementRow) → IsSteady (leave_created now row)
unfolding leave_created
leave_created-IsSteady now row = search (steady_rules, to_pending-IsSteady) depth 12

leave_pending-IsSteady : (now : ℕ) (row : DisbursementRow) → IsSteady (leave_pending now row)
unfolding leave_pending
leave_pending-IsSteady now row = search (steady_rules, move_to_unknown-IsSteady) depth 12

pub to_review-IsSteady : (now : ℕ) (row : DisbursementRow) → IsSteady (to_review now row)
unfolding to_review
to_review-IsSteady now row =
    search (steady_rules, leave_created-IsSteady, leave_pending-IsSteady, to_needs_review-IsSteady)
      depth 12

pub public_body-IsSteady : (id : String) → IsSteady (public_body id)
unfolding public_body
public_body-IsSteady id = search steady_rules

pub assign-IsSteady :
    (id : String) (fs : List Field) → IsSteady (update_disbursements (has_id id) (assign_all fs))
assign-IsSteady id fs = update_disbursements-IsSteady (has_id id) _ (λ q _. assign_all-Steady fs q)

record_answer-IsSteady :
    (now : ℕ) (row : DisbursementRow) (a : DisburseAnswer) → IsSteady (record_answer now row a)
unfolding record_answer
record_answer-IsSteady now row (DisburseAnswer.accepted a) = to_pending-IsSteady now row _
record_answer-IsSteady now row (DisburseAnswer.rejected reason raw) =
    fail-IsSteady now row reason raw
record_answer-IsSteady now row DisburseAnswer.outcome_unknown = to_unknown-IsSteady now row _

keep_conversation-IsSteady :
    (row : DisbursementRow) (a : DisburseAnswer) → IsSteady (keep_conversation row a)
unfolding keep_conversation
keep_conversation-IsSteady row (DisburseAnswer.accepted a) =
    Keeps-bind _ _ (assign-IsSteady row.disbursement_id _) (λ _. Keeps-pure tt)
keep_conversation-IsSteady row _ = Keeps-pure tt

-- The second transaction of `create_payout`.
pub finish_create-IsSteady :
    (now : ℕ) (id tenant key : String) (a : DisburseAnswer)
    → IsSteady (finish_create now id tenant key a)
unfolding finish_create
finish_create-IsSteady now id tenant key a =
    search (steady_rules, record_answer-IsSteady, keep_conversation-IsSteady, public_body-IsSteady)
      depth 12

escalate-IsSteady :
    (cfg : Settings) (now : ℕ) (row : DisbursementRow) → IsSteady (escalate cfg now row)
unfolding escalate
escalate-IsSteady cfg now row = search (steady_rules, to_review-IsSteady)

pub inconclusive-IsSteady :
    (cfg : Settings) (now : ℕ) (id : String) → IsSteady (inconclusive cfg now id)
unfolding inconclusive
inconclusive-IsSteady cfg now id =
    search (steady_rules, escalate-IsSteady, assign-IsSteady) depth 12

sweep_attempt-IsSteady : (now : ℕ) (row : DisbursementRow) → IsSteady (sweep_attempt now row)
unfolding sweep_attempt
sweep_attempt-IsSteady now row =
    search (steady_rules, move_to_unknown-IsSteady, public_body-IsSteady) depth 12

for_each-IsSteady :
    (step : DisbursementRow → Tx (Unit {0})) (rows : List DisbursementRow)
    → ((p : DisbursementRow) → IsSteady (step p))
    → IsSteady (for_each step rows)
unfolding for_each
for_each-IsSteady step [] h = Keeps-pure 0
for_each-IsSteady step (p ∷ ps) h =
    Keeps-bind _ _ (h p)
      (λ _. Keeps-bind _ _ (for_each-IsSteady step ps h) (λ n. Keeps-pure (suc n)))

-- The first transaction of `sweep`.
pub sweep_tx-IsSteady : (cfg : Settings) (now : ℕ) → IsSteady (sweep_tx cfg now)
unfolding sweep_tx
sweep_tx-IsSteady cfg now =
    search (steady_rules, for_each-IsSteady, sweep_attempt-IsSteady, move_to_unknown-IsSteady) depth
      12
