-- ===== src/Metadata.antt =====
-- services/metadata-service/src: what the services report of documents, chunks and embeddings, and how
-- one comes from another.
pub mod Tables
pub mod Events
pub mod Writes
pub mod Consumer
pub mod Lineage
pub mod Versions
mod Tests
