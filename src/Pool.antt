-- ===== src/Pool.antt =====
-- oldAPIHelpMark/rdma/memory_pool.h: the allocator of remotely accessible memory.
pub mod Log
pub mod Resource
pub mod Regions
