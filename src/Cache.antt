-- ===== src/Cache.antt =====
-- src/interpreter/cache_manager.cpp: the frames that pipelines store under names, in a stack of local
-- scopes and in a map that threads and, through the arena, processes share.
pub mod Entry
pub mod Scopes
pub mod Global
pub mod Manager
pub mod ScopeLaws
pub mod Coherence
pub mod Sharing
pub mod Unified
