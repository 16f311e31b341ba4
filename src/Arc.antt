-- ===== src/Arc.antt =====
-- byst/src/buf/arc_buf.rs: a buffer on the heap that several references share.
pub mod Count
pub mod Threads
pub mod Ref
pub mod Shared
pub mod Mutable
pub mod Writer
