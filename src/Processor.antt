-- ===== src/Processor.antt =====
-- services/doc-processor/src: from a raw document to the chunks that are embedded.
pub mod Chunker
pub mod Document
