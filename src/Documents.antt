-- ===== src/Documents.antt =====
-- Documents: upload paths of documents/object_store.py, and chunks of documents/service.py.
pub mod Paths
pub mod ObjectStore
pub mod Chunks
pub mod Upload
pub mod Pipeline
