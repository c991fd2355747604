-- ===== src/Lending/Sweep.antt =====
-- What holds of the daily sweep (src/modules/repayments/penalty-sweep.service.ts).
pub mod Charges
pub mod Rule
pub mod Posted
pub mod Traced
