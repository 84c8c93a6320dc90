-- ===== src/Knowledge.antt =====
-- The knowledge base (knowledge/): loading runbooks, cutting them into chunks, storing and searching
-- them.
pub mod Whitespace
pub mod Chunking
pub mod Loader
pub mod Tables
pub mod Ingestion
pub mod Retrieval
