-- ===== src/Frontend.antt =====
-- core/ipyflow/frontend.py: which cells are ready, waiting or stale after an execution.
pub mod Checker
pub mod Waiting
pub mod Fixpoint
pub mod Least
pub mod View
pub mod Readiness
pub mod Ready
pub mod Links
pub mod Closing
pub mod Closed
pub mod Parents
pub mod Children
pub mod Makers
pub mod Stale
pub mod Flip
pub mod Check
pub mod Whole
pub mod Waiters
pub mod Tests
mod LinkTests
