-- ===== src/Runner.antt =====
-- The test runner (include/testforge/execution/TestRunner.hpp, src/execution/TestRunner.cpp): a
-- test's body, the wait for it, one execution, the retries, and a sequential run.
pub mod Context
pub mod Body
pub mod Waiting
pub mod Attempt
pub mod Retries
pub mod Whole
