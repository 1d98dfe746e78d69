-- ===== src/Substitution.antt =====
-- Texts with placeholders: src/variable_substitution.py and src/variable_validation.py.
pub mod Scan
pub mod Resolve
pub mod Validation
mod Tests
