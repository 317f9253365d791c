-- ===== src/Commission.antt =====
-- The commission service, services/commission/ledger.
pub mod Calc
pub mod Tables
pub mod Common
pub mod Close
pub mod Disburse
pub mod System
