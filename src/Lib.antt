-- ===== src/Lib.antt =====
-- ipyflow, a reactive kernel for notebooks: its dataflow graph, slices, cells and schedule.
--
-- The kernel runs cells of a notebook and traces which symbols each run reads and writes. From these
-- it keeps edges between cells (slicing), a registry of the versions of each cell (data_model/cell),
-- edges between symbols, with scopes and namespaces that hold them (data_model/symbol), and, after each
-- execution, tells the notebook which cells wait, are ready or are stale (frontend). An update of a
-- symbol refreshes it and marks what was computed from it as waiting (data_model/utils).
--
-- Which file models which part:
--   Base       names of the libraries, finite sets as lists without order, dictionaries as association
--              lists, and integers with a sign over the native numbers.
--   Timestamp  core/ipyflow/data_model/timestamp.py: `Timestamp`, its order, and the clock whose two
--              offsets `Timestamp.offset` shifts.
--   Config     core/ipyflow/config.py and core/ipyflow/slicing/context.py: the enumerations and their
--              values, the mutable settings, the context variable and `iter_slicing_contexts`.
--   Slicing    core/ipyflow/slicing/mixin.py: `SliceableMixin`. Graph has the edges as dictionaries
--              of symbols at both ends, where versions of a cell share the dictionary of children;
--              Closure has `_make_slice_helper` and `make_multi_slice`, and Parents the relation that
--              their loop over parents computes.
--   Cells      core/ipyflow/data_model/cell.py: `Cell`, its class attributes as a registry, lookups
--              (Lookup), positions and directional edges (Positions), `create_and_track` (Create) and
--              `update_id` (Renaming).
--   Frontend   core/ipyflow/frontend.py: `FrontendCheckerResult` (Checker), `_compute_readiness`
--              (View, Readiness), `_compute_dag_based_waiters` (Waiting), links from waiting cells
--              (Links), stale parents (Stale), drawn parents (Parents), `_check_one_cell` (Check) and
--              `compute_frontend_checker_result` (Whole).
--   Symbols    core/ipyflow/data_model/symbol.py, scope.py, namespace.py and utils/update_protocol.py:
--              lookups (Spaces) and chains of names (Chains), the times of symbols (Times), `refresh`
--              (Refresh), `is_waiting` and its form for positions (Waiting), `UpdateProtocol`
--              (Propagate), the edges of `update_deps` (Edges) and garbage (Garbage). Proofs about a
--              recursion over symbols share what it spreads (Spread, Facts, Loops) and what no update
--              changes (Skeleton); what they are stated with is read off the fields (Meaning).
--
-- Cells and other objects are numbers, places in a heap, so that what two names share is shared here.
-- Identifiers, tags and symbols are numbers too: the code only compares them. An exception of the
-- source is `none`, or an error of a result where slices tell a missing key from a lack of fuel.
-- Sets are lists whose order does not matter to any statement. The context variable of slicing is
-- an argument of the methods of cells.
--
-- Fuel. A slice takes fuel for every object that it can reach; each recursive call adds an object to
-- the closure, so one more than the number of objects is enough. The loop of waiting cells takes fuel
-- for two passes more than there are cells to check that do not wait yet; each pass but the last adds
-- a cell.
-- The loop that closes links takes its fuel as an argument: one more than the pairs of a waiting cell
-- and a linked one is enough where no cell is linked to itself. Collecting what an update reaches takes
-- fuel for each symbol, and passing waiting on fuel for two calls for each symbol and three more, since
-- a symbol that is seen may be passed once more. A scope is younger than its parent, whose number is
-- smaller: its own number is fuel for walks along scopes.
--
-- Not modelled: what a static or dynamic analysis of code finds (the timestamps of symbols, the live
-- and dead symbols of a cell) is a table that the schedule reads, since the tracer and the analysis
-- of syntax trees are not modelled; neither are results for JSON, the kernel and its messages,
-- memoized outputs, and tables about syntax nodes for the display. Of symbols, what Python says of an
-- object (its type, its length, its attributes) is a record that the code reads; the parts of
-- `update_deps` for widgets, usages and virtual symbols, the fields for tags and call arguments, the
-- creation of symbols, and static writes are left out. After `update_id` the versions of a cell share
-- the sets of symbols of the dictionaries that were renamed, which are copies here. `is_waiting` over a minimal timestamp may not
-- end on a cycle, in the source as well.
pub mod Base
pub mod Timestamp
pub mod Config
pub mod Slicing
pub mod Cells
pub mod Frontend
pub mod Symbols
