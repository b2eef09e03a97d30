-- ===== src/Sealed.antt =====
-- util/sealedchain.go: the signed list of a person's devices.
-- A Go string is its bytes here, a `List ℕ`.
pub mod Context
pub mod Chain
pub mod Payloads
mod Tests
