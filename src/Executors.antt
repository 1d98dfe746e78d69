-- ===== src/Executors.antt =====
-- Node executors (src/executors).
pub mod WhileLoop
pub mod Start
pub mod Simple
pub mod Approval
mod Tests
