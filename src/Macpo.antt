-- ===== src/Macpo.antt =====
-- The measurements of MACPO (tools/macpo): the runtime that instrumented programs call, and the
-- analysis of the records that they write.
pub mod Words
pub mod AvlTree
pub mod ReuseDistance
pub mod Stack
pub mod Counters
pub mod Window
pub mod Record
pub mod Reading
pub mod Conflict
pub mod Verdict
pub mod Seen
pub mod Sets
pub mod Histogram
pub mod Cells
pub mod Runtime
pub mod Loops
pub mod Branches
pub mod Checks
pub mod Overlap
pub mod Trace
pub mod Sampling
pub mod Timers
pub mod Distances
pub mod Latency
pub mod Owners
pub mod Sharing
mod Tests
