-- ===== src/Indexer.antt =====
-- The in-memory indexer, src/indexer.
pub mod Config
pub mod Event
pub mod Matcher
pub mod Dedupe
pub mod Store
pub mod Action
pub mod Engine
pub mod Query
pub mod Facade
pub mod Tests
