-- ===== src/Rag.antt =====
-- services/rag-api/src: answers queries over a tenant's documents.
pub mod Breaker
pub mod Service
