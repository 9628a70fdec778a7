-- ===== src/Error.antt =====
-- error.rs
pub mod Codes
pub mod Mapping
pub mod Display
pub mod Report
pub mod Numbers
pub mod Bounds
