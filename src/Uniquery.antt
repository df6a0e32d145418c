-- ===== src/Uniquery.antt =====
-- src/uniquery: queries for the elements in an interval.
pub mod BinRange
pub mod FloatOrder
pub mod Selection
pub mod ReadReconst
pub mod TrimBins
pub mod Query
mod Examples
mod QueryExamples
