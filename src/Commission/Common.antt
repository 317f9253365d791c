-- ===== src/Commission/Common.antt =====
-- services/commission/ledger/common.py, and the backoff of services/commission/ledger/disburse.py.
use devops_g_9_tillflow.Base.{
  ℕ, zero, suc, ◌-◌, min, String, ◌&&◌, nat_eq, ◌==◌, Option, none, some, List, [], ◌∷◌,
  if◌then◌else◌,
}
use devops_g_9_tillflow.Base.Text.{length}
use devops_g_9_tillflow.Commission.Tables.{LedgerState}

-- The fields of a reply of Payments that the code reads; a missing `error` or `state` is the empty text.
pub record Reply : Type 0 where
  pub error : String
  pub disbursement_id : Option String
  pub state : String
  pub failure_reason : Option String

-- The outcome labels.
pub data PayoutOutcome : Type 0 where
  created already_requested in_flight_retry_next_run conflict_needs_review : PayoutOutcome
  held : (error : String) → PayoutOutcome
  payouts_disabled : PayoutOutcome
  rejected : (status : ℕ) → PayoutOutcome

unfoldable pub classify_payout_response : ℕ → Reply → PayoutOutcome
classify_payout_response status reply =
    if nat_eq status 201
    then created
    else if nat_eq status 200
    then already_requested
    else if nat_eq status 409 && reply.error == "payout_already_requested"
    then already_requested
    else if nat_eq status 409 && reply.error == "idempotency_in_flight"
    then in_flight_retry_next_run
    else if nat_eq status 409
    then conflict_needs_review
    else if nat_eq status 422
    then held reply.error
    else if nat_eq status 503 && reply.error == "payouts_disabled"
    then payouts_disabled
    else rejected status

-- `_TERMINAL_PAYMENTS_STATES.get(state)`
unfoldable pub terminal_payments_state : String → Option LedgerState
terminal_payments_state state =
    if state == "SUCCEEDED"
    then some LedgerState.succeeded
    else if state == "FAILED"
    then some LedgerState.failed
    else none

abbrev pub backoff_seconds : List ℕ
backoff_seconds = 30 ∷ 60 ∷ 120 ∷ 300 ∷ 600 ∷ 1800 ∷ 3600 ∷ []

-- `xs[i]`; the caller's index is in range, so the first clause is never read.
abbrev pub item : List ℕ → ℕ → ℕ
item [] i = 0
item (x ∷ xs) zero = x
item (x ∷ xs) (suc i) = item xs i

unfoldable pub next_backoff : ℕ → ℕ
next_backoff attempts = item backoff_seconds (min attempts (length backoff_seconds - 1))
