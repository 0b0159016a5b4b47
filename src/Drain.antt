-- ===== src/Drain.antt =====
-- The drain receipts of worker_drain.py: Value is what a worker sends, Fields the checks of single
-- fields, Receipt the binding and the validation of an acknowledgment.
pub mod Value
pub mod Fields
pub mod Receipt
pub mod Accepted
pub mod Encoded
pub mod Roundtrip
pub mod Examples
