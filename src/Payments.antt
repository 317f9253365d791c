-- ===== src/Payments.antt =====
-- The Payments service (services/payments/core): collections and payouts over the M-Pesa port.
pub mod States
pub mod Common
pub mod Tables
pub mod Schema
pub mod Tx
pub mod Store
pub mod Service
pub mod Collect
pub mod Ledger
pub mod Quiet
pub mod Credit
pub mod Waiting
pub mod Debit
pub mod ResultCodes
pub mod System
pub mod Payout
pub mod PayoutSystem
pub mod Tests
