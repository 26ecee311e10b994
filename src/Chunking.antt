-- ===== src/Chunking.antt =====
-- ingestion/chunking.py: blocks of text are split into sentences, and these are packed into chunks.
-- `chunk_blocks` and `emit` are in Packing, what comes before them is in Sentences.
pub mod Sentences
pub mod Packing
pub mod Contract
