-- ===== src/Runtime.antt =====
-- What the source uses of JavaScript's own library.
pub mod Date
pub mod Decimal
pub mod Files
pub mod Join
pub mod Sort
pub mod Quote
pub mod Trim
