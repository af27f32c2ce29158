-- ===== src/Analyze.antt =====
-- tools/ghalo_analyze.py: what a run's path and metadata say of it, and how runs are labelled and
-- ordered. The parts stand in the modules below.
pub mod Numbers
pub mod RunName
pub mod PathMetadata
pub mod Labels
pub mod Order
pub mod Results
pub mod Run
pub mod Load
pub mod Keys
pub mod Compare
pub mod Aggregate
pub mod Scaling
pub mod Plot
pub mod Pairs
pub mod Output
pub mod Summary
