-- ===== src/Lib.antt =====
-- byst, a library to read and write bytes in buffers of many kinds.
--
-- The program. A buffer is read through a reader and written through a writer, which step over it
-- in chunks; ranges select parts of a buffer. Copies run a reader against a writer. Limits and counts
-- wrap a reader. The buffers are slices, vectors, memory of which a front is initialised, and
-- references into an allocation that is counted. Iterators over items, chunks and bytes are wrapped
-- to peek, to mark the first and the last, or to track offsets.
--
-- The files.
--   Range           byst/src/range.rs: ranges with optional bounds. A sum that overflows is a
--                   panic, as in a build with overflow checks.
--   Io.Interface    the traits of byst/src/io/read.rs, byst/src/io/write.rs and
--                   byst/src/io/mod.rs as records of operations on a state; Io.Laws are the contracts that clients
--                   take and that implementations fill.
--   Io.Slice        readers and writers of slices, in byst/src/io/read.rs and byst/src/io/write.rs.
--   Io.Limit        byst/src/io/limit.rs, and Io.Count byst/src/io/count.rs, over a reader that is a
--                   parameter.
--   Io.Derived      the readers and writers that `impl_me!` of byst/src/util.rs derives.
--   Io.Reads        what these derive of `Reader`: `read_into`, `read_into_exact`, `skip`.
--   Io.Values       `Read` and `Write` of bytes, arrays, addresses, signed integers and pairs, in
--                   byst/src/io/read.rs, byst/src/io/write.rs and byst/src/endianness.rs.
--   Endian          byst/src/endianness.rs, for unsigned integers.
--   Equal           `buf_eq` of byst/src/util.rs.
--   Copy            byst/src/copy.rs: `copy_io`; Copy.Calls has `copy` and `copy_range`,
--                   and Copy.Calls.Buffers the buffers that `copy` is run on.
--   Buf             byst/src/buf/mod.rs: the trait of writable buffers; Buf.Vec is the writer of a vector.
--   Buf.Partial     byst/src/buf/partially_initialized.rs, and in Buf.Partial.Array byst/src/buf/array_buf.rs.
--   Buf.Empty       byst/src/buf/empty.rs.
--   Arc             byst/src/buf/arc_buf.rs. Count has the operations on the atomic word, Threads the
--                   handles that threads hold, as a step relation; Ref is `BufferRef`, Shared
--                   `ArcBuf`, Mutable `ArcBufMut`, over the memory of one allocation; Writer is the
--                   writer of `ArcBufMut`, and its steps beside other references.
--   Rope            byst/src/buf/rope.rs, over buffers that are a parameter.
--   Slab            byst/src/buf/slab.rs, over the reference counts of its buffers.
--   Iter            byst/src/util.rs (Peekable, Ends) and byst/src/buf/chunks.rs (Chunks).
--   Hexdump         byst/src/hexdump.rs.
--   Bits            byst/src/bits.rs, for every width of numbers.
--   Bytes           byst/src/bytes/view.rs and byst/src/bytes/impl.rs: a view behind a trait object;
--                   Owned is byst/src/bytes/bytes.rs, and Writers the writers behind one.
--   Prelude         shared names, lists with native lengths, results.
--   Tests           concrete runs.
--
-- How it is modelled. A call through `&mut self` takes the state and returns it. `Result` has a
-- panic beside `ok` and `err`; `Outcome` also holds the state that is left, on errors too; where a
-- call can only panic, `none` is the panic. A `usize` is a native number below 2^64. Memory is a
-- list of bytes that may be uninitialised. What `peek_chunk_mut` lends is written by `store`. The
-- loop of `copy_io` runs on fuel, one round for every byte that the reader says it has and one
-- more; the rounds move at least a byte each, so that this is enough. The loop of `Slab::get` has
-- fuel for the buffers in use and two more rounds: a round passes or removes one, but for the
-- first that it reclaims, and one ends the loop. The binary search of a rope has fuel for each
-- segment, and a round leaves one less. `buf_eq` has fuel above the bytes of the left buffer, of
-- which a round takes one at least. A hexdump has fuel for two lines more than bytes, and a line
-- but the first two has a byte; the digits of a `usize` have 16 rounds. A rope is collected on
-- fuel above the items. The atomic operations on the count are each one step, and a deallocation
-- is a step of its own, so that every interleaving is a sequence of steps; the memory orderings
-- themselves are not modelled.
--
-- Not modelled: of the type-erased bytes of byst/src/bytes the mutable buffers, which forward to those
-- in the box; the macros of byst-macros, which produce source code; Debug output; the reader of a rope,
-- which is `todo!()`; implementations for `&mut` and boxes, which forward their calls; floats.
pub mod Prelude
pub mod Range
pub mod Io
pub mod Copy
pub mod Buf
pub mod Iter
pub mod Arc
pub mod Endian
pub mod Slab
pub mod Rope
pub mod Equal
pub mod Hexdump
pub mod Bits
pub mod Bytes
pub mod Tests
