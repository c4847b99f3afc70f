-- ===== src/Arena.antt =====
-- src/utils/shm_zero_copy.cpp: the anonymous shared-memory arena through which forked processes
-- exchange frames.
pub mod Slots
pub mod Throughput
pub mod Frames
pub mod Lookup
pub mod Laws
pub mod Follows
pub mod Room
pub mod Buckets
pub mod Race
