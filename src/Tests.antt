-- ===== src/Tests.antt =====
-- Concrete runs of the code, module by module, at which the theorems are applied.
mod Ranges
mod Copying
mod Readers
mod Buffers
mod Arcs
mod Iterators
mod Slabs
mod Integers
mod Writers
mod Ropes
mod Dumps
mod Codecs
