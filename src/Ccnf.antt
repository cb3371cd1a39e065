-- ===== src/Ccnf.antt =====
-- The normalization pipeline, ccnf/*.go: one module for each file or step.
pub mod Numerals
pub mod Serializer
pub mod Normalize
pub mod Canonicalize
pub mod Result
pub mod Intents
pub mod Artifacts
pub mod Identity
pub mod Deltas
pub mod Cer
pub mod Pipeline
pub mod Mutate
pub mod Checks
pub mod CrossOrder
pub mod Fuzz
