-- ===== src/Core.antt =====
-- src/core and src/arch/shm/impl.c: the objects of the shared segment, and the calls on them.
pub mod World
pub mod Object
pub mod Orphans
pub mod Accel
pub mod Vaccel
pub mod Proc
pub mod Create
pub mod Data
pub mod Lookup
pub mod Task
pub mod Release
pub mod Exchange
pub mod Listing
pub mod System
