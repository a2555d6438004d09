-- ===== src/Slicing.antt =====
-- core/ipyflow/slicing/mixin.py: the operations on the dataflow graph that cells and statements
-- share, and the backward slices that are computed from it.
pub mod EdgeSets
pub mod Graph
pub mod Invariant
pub mod Changes
pub mod Closure
pub mod Parents
pub mod Reach
pub mod Slices
pub mod Versions
pub mod Tests
