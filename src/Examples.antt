-- ===== src/Examples.antt =====
-- Tests of the models on concrete inputs, and each theorem at an input where its hypotheses hold.
mod Prefetch
mod Databases
mod Axes
mod Openings
mod Scans
mod Shadows
mod Batches
mod Rows
mod Scalars
mod Keys
mod Queries
mod Indexes
mod Compilation
mod Bitmaps
mod Blobs
mod Plans
mod Spans
