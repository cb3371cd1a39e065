-- ===== src/Runtime.antt =====
-- The execution runtime: runtime/{trace, replay, types, validator}.go.
pub mod Bytes
pub mod Trace
pub mod Binding
pub mod Receipt
pub mod Engine
