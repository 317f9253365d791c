-- ===== src/Payments/Quiet/Service.antt =====
-- The operations of payments.py that are quiet: all that does not apply a success.
use devops_g_9_tillflow.Base.{ℕ, String, ◌≡◌, refl, false, Option, List, [], ◌∷◌, suc}
use devops_g_9_tillflow.Payments.States.{PaymentState}
use devops_g_9_tillflow.Payments.Tables.{PaymentRow, EventType, Severity}
use devops_g_9_tillflow.Payments.Tx.{Tx}
use devops_g_9_tillflow.Payments.Store.Payment.{
  has_id, assign_all, update_payments, transition, set_reconcile_attempts, set_next_reconcile_at,
  set_unknown_since,
}
use devops_g_9_tillflow.Payments.Service.{Settings}
use devops_g_9_tillflow.Payments.Collect.Outcomes.{
  move_to_unknown, leave_pending, to_review, event, log_illegal, after_transition,
}
use devops_g_9_tillflow.Payments.Collect.Create.{public_body}
use devops_g_9_tillflow.Payments.Collect.Reconcile.{
  escalate, inconclusive, sweep_attempt, for_each, sweep_tx,
}
use devops_g_9_tillflow.Payments.Quiet.{quiet_frame, IsQuiet, is_succeeded}
use devops_g_9_tillflow.Payments.Tx.Keeps.{
  Keeps-pure, Keeps-raise, Keeps-gets, Keeps-row_of, Keeps-bind, Keeps-if,
}
use devops_g_9_tillflow.Payments.Quiet.Statements.{
  idem_complete-IsQuiet, outbox-IsQuiet, anomaly-IsQuiet, update_payments-IsQuiet, assign_all-Quiet,
  transition-IsQuiet,
}

pub ruleset quiet_rules = (
  Keeps-pure, Keeps-raise, Keeps-gets, Keeps-row_of, Keeps-bind, Keeps-if, idem_complete-IsQuiet,
  outbox-IsQuiet, anomaly-IsQuiet,
)

pub move_to_unknown-IsQuiet :
    (now : ℕ) (p : PaymentRow) (raw : Option String) → IsQuiet (move_to_unknown now p raw)
unfolding move_to_unknown is_succeeded
move_to_unknown-IsQuiet now p raw = transition-IsQuiet _ _ _ now _ (tt, (tt, (tt, tt))) refl

leave_pending-IsQuiet : (now : ℕ) (p : PaymentRow) → IsQuiet (leave_pending now p)
unfolding leave_pending
leave_pending-IsQuiet now p = search (quiet_rules, move_to_unknown-IsQuiet)

review-IsQuiet :
    (id : String) (s : PaymentState) (now : ℕ)
    → IsQuiet (transition id s PaymentState.needs_review now [])
unfolding is_succeeded
review-IsQuiet id s now = transition-IsQuiet id s _ now [] tt refl

pub to_review-IsQuiet : (now : ℕ) (p : PaymentRow) → IsQuiet (to_review now p)
unfolding to_review
to_review-IsQuiet now p = search (quiet_rules, leave_pending-IsQuiet, review-IsQuiet)

pub event-IsQuiet : (now : ℕ) (p : PaymentRow) (e : EventType) → IsQuiet (event now p e)
unfolding event
event-IsQuiet now p e = outbox-IsQuiet _ _ _ _ _

pub log_illegal-IsQuiet : (now : ℕ) (p : PaymentRow) (s : Severity) → IsQuiet (log_illegal now p s)
unfolding log_illegal
log_illegal-IsQuiet now p s = search quiet_rules

pub public_body-IsQuiet : (id : String) → IsQuiet (public_body id)
unfolding public_body
public_body-IsQuiet id = search quiet_rules

escalate-IsQuiet : (cfg : Settings) (now : ℕ) (p : PaymentRow) → IsQuiet (escalate cfg now p)
unfolding escalate
escalate-IsQuiet cfg now p = search (quiet_rules, to_review-IsQuiet)

backoff-IsQuiet :
    (id : String) (n t : ℕ)
    → IsQuiet (
        update_payments
          (has_id id)
          (assign_all (set_reconcile_attempts n ∷ set_next_reconcile_at t ∷ [])))
backoff-IsQuiet id n t =
    update_payments-IsQuiet (has_id id) _ (λ q _. assign_all-Quiet _ (tt, (tt, tt)) q)

pub inconclusive-IsQuiet :
    (cfg : Settings) (now : ℕ) (id : String) → IsQuiet (inconclusive cfg now id)
unfolding inconclusive
inconclusive-IsQuiet cfg now id = search (quiet_rules, escalate-IsQuiet, backoff-IsQuiet)

lost_attempt-IsQuiet :
    (id : String) (now t : ℕ)
    → IsQuiet (
        transition id PaymentState.created PaymentState.unknown now
          (set_unknown_since now ∷ set_next_reconcile_at t ∷ []))
unfolding is_succeeded
lost_attempt-IsQuiet id now t = transition-IsQuiet id _ _ now _ (tt, (tt, tt)) refl

sweep_attempt-IsQuiet : (now : ℕ) (p : PaymentRow) → IsQuiet (sweep_attempt now p)
unfolding sweep_attempt
sweep_attempt-IsQuiet now p = search (quiet_rules, lost_attempt-IsQuiet, public_body-IsQuiet)

for_each-IsQuiet :
    (step : PaymentRow → Tx (Unit {0})) (rows : List PaymentRow)
    → ((p : PaymentRow) → IsQuiet (step p))
    → IsQuiet (for_each step rows)
unfolding for_each
for_each-IsQuiet step [] h = Keeps-pure 0
for_each-IsQuiet step (p ∷ ps) h =
    Keeps-bind _ _ (h p)
      (λ _. Keeps-bind _ _ (for_each-IsQuiet step ps h) (λ n. Keeps-pure (suc n)))

-- One sweep of lost attempts and callbacks.
pub sweep_tx-IsQuiet : (cfg : Settings) (now : ℕ) → IsQuiet (sweep_tx cfg now)
unfolding sweep_tx
sweep_tx-IsQuiet cfg now =
    search (quiet_rules, for_each-IsQuiet, sweep_attempt-IsQuiet, move_to_unknown-IsQuiet) depth 12

-- What follows a transition that is no success.
pub after_transition-IsQuiet :
    (now : ℕ) (p : PaymentRow) (t : PaymentState) (receipt : Option String)
    → is_succeeded t ≡ false
    → IsQuiet (after_transition now p t receipt)
unfolding after_transition is_succeeded
after_transition-IsQuiet now p PaymentState.succeeded receipt h = cc
after_transition-IsQuiet now p PaymentState.declined receipt h = search (quiet_rules, event-IsQuiet)
after_transition-IsQuiet now p _ receipt h = search (quiet_rules, event-IsQuiet)
