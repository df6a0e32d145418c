-- ===== src/RidCompress.antt =====
-- src/ridcompress/, the compression of row ids: patchedframeofreference.cpp and .h with the packed
-- integers of gen_fixedlengthcode.cpp (the children on batches of 128 numbers), and
-- pfordelta-c-interface.cpp with src/ALRIDCompression.c, which wraps it (Interface).
pub mod FixedLength
pub mod Exceptions
pub mod Header
pub mod Params
pub mod Batch
pub mod Interface
mod Examples
