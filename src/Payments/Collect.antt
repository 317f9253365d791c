-- ===== src/Payments/Collect.antt =====
-- services/payments/core/payments.py: charges, callbacks and reconciliation. One module for each
-- part of `PaymentService`; its proofs stand in Quiet, Credit and System.
pub mod Parse
pub mod Outcomes
pub mod Callback
pub mod Create
pub mod Reconcile
pub mod Tests
