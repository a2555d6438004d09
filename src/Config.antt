-- ===== src/Config.antt =====
-- core/ipyflow/config.py and core/ipyflow/slicing/context.py: the enumerations that settings are
-- read into, the mutable settings, and the context variable that selects a dataflow graph.
pub mod Modes
pub mod Contexts
pub mod Tests
