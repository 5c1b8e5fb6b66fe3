-- ===== src/Iht.antt =====
-- The interlocked hash table: oldAPIHelpMark/iht.
pub mod Key
pub mod Mix
pub mod Elist
pub mod Local
pub mod Remote
