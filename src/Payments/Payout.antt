-- ===== src/Payments/Payout.antt =====
-- services/payments/core/payouts.py: disbursements for the commission service. One module for each
-- part of `PayoutService`.
pub mod Parse
pub mod Outcomes
pub mod Results
pub mod Create
pub mod Reconcile
pub mod KillSwitch
pub mod Tests
