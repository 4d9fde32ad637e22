-- ===== src/Allocators.antt =====
-- allocators/: caches of objects and pages, and deferred freeing of transactional memory.
pub mod Generic
pub mod Versioned
pub mod Cached
pub mod Nodes
pub mod Pages
