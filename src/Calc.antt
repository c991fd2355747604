-- ===== src/Calc.antt =====
-- The pure calculations of loan products (src/modules/loan-products/calculations).
pub mod Rounding
pub mod Interest
pub mod Reducing
pub mod Charges
pub mod Tests
