-- ===== src/Params.antt =====
-- Runtime parameters: src/interpreter/param_store.cpp and src/interpreter/param_server.cpp.
pub mod Value
pub mod Wire
pub mod Store
pub mod Laws
pub mod Notify
pub mod Snapshot
pub mod Server
pub mod Session
pub mod Newline
pub mod Watching
pub mod Bytewise
pub mod Pieces
