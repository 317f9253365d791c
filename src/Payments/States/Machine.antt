-- ===== src/Payments/States/Machine.antt =====
-- The state machines as graphs: what a chain of legal transitions can do.
use devops_g_9_tillflow.Base.{ℕ, ◌<◌, ◌≡◌, refl, Bool, true, false, arith}
use devops_g_9_tillflow.Payments.States.{
  PaymentState, DisbursementState, is_terminal, is_terminal_disbursement, same_state,
  same_disbursement_state, check_transition, check_disbursement_transition,
}

-- A chain of transitions that the table `legal` holds, one after the other.
pub data Chain {S : Type 0} (legal : S → S → Bool) : S → S → Type 0 where
  here : {s : S} → Chain legal s s
  move : {s t u : S} → legal s t ≡ true → Chain legal t u → Chain legal s u

pub Chain-trans :
    {S : Type 0} {legal : S → S → Bool} {s t u : S}
    → Chain legal s t
    → Chain legal t u
    → Chain legal s u
Chain-trans here q = q
Chain-trans (move h p) q = move h (Chain-trans p q)

pub same_state-eq : (s t : PaymentState) → same_state s t ≡ true → s ≡ t
unfolding same_state
same_state-eq s t h = ground arith

pub same_state_refl : (s : PaymentState) → same_state s s ≡ true
unfolding same_state
same_state_refl s = ground arith

terminal_has_no_exit : (s t : PaymentState) → is_terminal s ≡ true → check_transition s t ≡ false
unfolding is_terminal check_transition
terminal_has_no_exit s t h = ground arith

-- How far a payment has come; every legal transition comes closer to the end.
rank : PaymentState → ℕ
rank PaymentState.created = 0
rank PaymentState.pending = 1
rank PaymentState.unknown = 2
rank PaymentState.needs_review = 3
rank _ = 4

rank-transition : (s t : PaymentState) → check_transition s t ≡ true → rank s < rank t
unfolding rank check_transition
rank-transition s t h = ground arith

-- A terminal state is immutable: along every chain of legal transitions it stays what it is.
pub terminal_is_final :
    {s t : PaymentState} → Chain check_transition s t → is_terminal s ≡ true → s ≡ t
terminal_is_final here h = refl
terminal_is_final (move {s} {t} e p) h = ground (arith, terminal_has_no_exit s t)

pub same_disbursement_state-eq :
    (s t : DisbursementState) → same_disbursement_state s t ≡ true → s ≡ t
unfolding same_disbursement_state
same_disbursement_state-eq s t h = ground arith

failed_has_no_exit :
    (s t : DisbursementState)
    → is_terminal_disbursement s ≡ true
    → check_disbursement_transition s t ≡ false
unfolding is_terminal_disbursement check_disbursement_transition
failed_has_no_exit s t h = ground arith

-- A disbursement in a terminal state (SUCCEEDED or FAILED) keeps it along every chain of transitions
-- that the state table allows.
pub terminal_disbursement_is_final :
    {s t : DisbursementState}
    → Chain check_disbursement_transition s t
    → is_terminal_disbursement s ≡ true
    → s ≡ t
terminal_disbursement_is_final here h = refl
terminal_disbursement_is_final (move {s} {t} e p) h = ground (arith, failed_has_no_exit s t)

rank-Chain :
    (s t u : PaymentState)
    → check_transition s t ≡ true
    → Chain check_transition t u
    → rank s < rank u
rank-Chain s t u h here = rank-transition s t h
rank-Chain s t u h (move {t = v} e p) = omega (arith, rank-transition s t h, rank-Chain t v u e p)

-- After a transition of a payment that the state table allows, no chain of allowed transitions comes
-- back to the state that it left, so no payment loops through its states.
pub no_return : {s t : PaymentState} → check_transition s t ≡ true → ¬ Chain check_transition t s
no_return {s} {t} h p = omega (arith, rank-Chain s t s h p)
