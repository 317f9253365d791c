-- ===== src/Payments/States.antt =====
-- services/payments/core/states.py: the states of a payment and of a disbursement, and the tables
-- of the legal transitions. An enum member is a constructor; `check_transition` answers whether it
-- returns (true) or raises `IllegalTransition` (false).
pub mod Machine
use devops_g_9_tillflow.Base.{Bool, true, false, List, [], ◌∷◌, ◌||◌, ◌&&◌}

pub data PaymentState : Type 0 where
  created pending unknown needs_review succeeded declined expired : PaymentState

pub data DisbursementState : Type 0 where
  created pending unknown needs_review succeeded failed : DisbursementState

-- PAYMENT_TERMINAL and `is_terminal("payment", …)`
unfoldable pub is_terminal : PaymentState → Bool
is_terminal PaymentState.succeeded = true
is_terminal PaymentState.declined = true
is_terminal PaymentState.expired = true
is_terminal _ = false

-- DISBURSEMENT_TERMINAL
unfoldable pub is_terminal_disbursement : DisbursementState → Bool
is_terminal_disbursement DisbursementState.succeeded = true
is_terminal_disbursement DisbursementState.failed = true
is_terminal_disbursement _ = false

-- `s is t`
unfoldable pub same_state : PaymentState → PaymentState → Bool
same_state PaymentState.created PaymentState.created = true
same_state PaymentState.pending PaymentState.pending = true
same_state PaymentState.unknown PaymentState.unknown = true
same_state PaymentState.needs_review PaymentState.needs_review = true
same_state PaymentState.succeeded PaymentState.succeeded = true
same_state PaymentState.declined PaymentState.declined = true
same_state PaymentState.expired PaymentState.expired = true
same_state _ _ = false

unfoldable pub same_disbursement_state : DisbursementState → DisbursementState → Bool
same_disbursement_state DisbursementState.created DisbursementState.created = true
same_disbursement_state DisbursementState.pending DisbursementState.pending = true
same_disbursement_state DisbursementState.unknown DisbursementState.unknown = true
same_disbursement_state DisbursementState.needs_review DisbursementState.needs_review = true
same_disbursement_state DisbursementState.succeeded DisbursementState.succeeded = true
same_disbursement_state DisbursementState.failed DisbursementState.failed = true
same_disbursement_state _ _ = false

-- PAYMENT_LEGAL, with `check_transition("payment", …)`
unfoldable pub check_transition : PaymentState → PaymentState → Bool
check_transition PaymentState.created PaymentState.pending = true
check_transition PaymentState.created PaymentState.declined = true
check_transition PaymentState.created PaymentState.unknown = true
check_transition PaymentState.pending PaymentState.succeeded = true
check_transition PaymentState.pending PaymentState.declined = true
check_transition PaymentState.pending PaymentState.expired = true
check_transition PaymentState.pending PaymentState.unknown = true
check_transition PaymentState.unknown PaymentState.succeeded = true
check_transition PaymentState.unknown PaymentState.declined = true
check_transition PaymentState.unknown PaymentState.expired = true
check_transition PaymentState.unknown PaymentState.needs_review = true
check_transition PaymentState.needs_review PaymentState.succeeded = true
check_transition PaymentState.needs_review PaymentState.declined = true
check_transition PaymentState.needs_review PaymentState.expired = true
check_transition _ _ = false

-- DISBURSEMENT_LEGAL, with `check_transition("disbursement", …)`
unfoldable pub check_disbursement_transition : DisbursementState → DisbursementState → Bool
check_disbursement_transition DisbursementState.created DisbursementState.pending = true
check_disbursement_transition DisbursementState.created DisbursementState.failed = true
check_disbursement_transition DisbursementState.created DisbursementState.unknown = true
check_disbursement_transition DisbursementState.pending DisbursementState.succeeded = true
check_disbursement_transition DisbursementState.pending DisbursementState.failed = true
check_disbursement_transition DisbursementState.pending DisbursementState.unknown = true
check_disbursement_transition DisbursementState.unknown DisbursementState.succeeded = true
check_disbursement_transition DisbursementState.unknown DisbursementState.failed = true
check_disbursement_transition DisbursementState.unknown DisbursementState.needs_review = true
check_disbursement_transition DisbursementState.needs_review DisbursementState.succeeded = true
check_disbursement_transition DisbursementState.needs_review DisbursementState.failed = true
check_disbursement_transition _ _ = false
