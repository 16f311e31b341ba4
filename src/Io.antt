-- ===== src/Io.antt =====
-- byst/src/io: readers and writers. `Interface` holds the traits as records of operations and their
-- laws, the other modules the implementations.
pub mod Interface
pub mod Laws
pub mod Slice
pub mod Limit
pub mod Count
pub mod Derived
pub mod Reads
pub mod Values
