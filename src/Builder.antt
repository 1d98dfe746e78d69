-- ===== src/Builder.antt =====
-- The draft of a workflow that the builder agent works on: src/builder.
pub mod Tools
pub mod Normalize
pub mod Entries
pub mod WellFormed
pub mod Turns
mod Tests
