-- ===== src/Kernel.antt =====
-- The reader kernel of the one-dimensional transforms and its helpers: kernels/primitives and
-- kernels/dataflow/lwt_reader.cpp.
pub mod Workspace
pub mod TileLayout
pub mod StickCache
pub mod Streams
pub mod Packing
pub mod Emit
mod Examples
