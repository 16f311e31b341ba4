-- ===== src/Tests/Codecs.antt =====
-- Values read and written, readers side by side and behind a trait object, and bits.
use byst.Prelude.{
  ℕ, ◌/◌, ◌%◌, ◌^◌, ◌<◌, ◌≡◌, ◌↔◌, Bool, true, some, List, [], ◌∷◌, ◌++◌, arith, drop, replicate,
  fail,
}
use byst.Io.Laws.{IsReaderOf}
use byst.Io.Slice.{SliceWriter, slice_reader, slice_cursor, slice_writer, slice_writer_contract}
use byst.Io.Reads.{read_into_exact, read_into_exact_lem}
use byst.Io.Values.{write_signed, read_signed}
use byst.Io.Values.Codec.{IsCodec, IsSigned, IsSigned-IsCodec}
use byst.Endian.{big}
use byst.Copy.Calls.Buffers.{slice_buf_mut}
use byst.Buf.Vec.{vec_writer}
use byst.Buf.Vec.Contract.{vec_contract}
use byst.Equal.{buf_eq}
use byst.Equal.Bytes.{buf_eq_lem}
use byst.Bits.{extract}
use byst.Bits.Extract.{extract_lem}
use byst.Bytes.{slice_impl}
use byst.Bytes.Erased.{IsValid, contents_of, slice_bytes}
use byst.Bytes.Owned.{bytes_reader, bytes_reader-IsReaderOf}

abbrev three : List ℕ
three = 1 ∷ 2 ∷ 3 ∷ []

buf_eq_lem_example :
    (answer : Bool) × (buf_eq slice_reader slice_reader 4 3 3 three three ≡ some answer)
    × ((answer ≡ true) ↔ (three ≡ three))
unfolding slice_cursor
buf_eq_lem_example = buf_eq_lem slice_cursor slice_cursor 4 three three tt tt (omega arith)

-- four bytes are wanted of three
read_into_exact_lem_example :
    (s' : List ℕ) × (d : SliceWriter) × (read_into_exact slice_buf_mut slice_writer slice_reader 4
        (three, replicate 4 0)
      ≡ fail (record { read = 3; requested = 4; remaining = 0 }) (s', d.written ++ d.left))
    × (d.written ≡ [] ++ three)
    × (d.left ≡ drop 3 (replicate 4 0))
    × (s' ≡ [])
unfolding slice_cursor slice_writer_contract
read_into_exact_lem_example =
    read_into_exact_lem slice_buf_mut slice_writer_contract slice_cursor 4 three (replicate 4 0) tt
      tt (omega arith)

IsSigned-IsCodec_example :
    IsCodec vec_contract slice_cursor
      (write_signed vec_writer big 2)
      (read_signed slice_reader big 2)
      (IsSigned 65536)
IsSigned-IsCodec_example = IsSigned-IsCodec vec_contract slice_cursor big 2 (omega arith)

extract_lem_example :
    (extract 16 8 4660 4 5 ≡ some (4660 / 2 ^ 4 % 2 ^ 5)) × (4660 / 2 ^ 4 % 2 ^ 5 < 2 ^ 5)
extract_lem_example = extract_lem 16 8 4660 4 5 (omega arith) (omega arith) (omega arith)

bytes_reader-IsReaderOf_example :
    IsReaderOf
      (bytes_reader slice_impl)
      (λ s. IsValid slice_bytes s.inner)
      (λ s. contents_of slice_bytes s.inner)
      (λ v. contents_of slice_bytes v.inner)
bytes_reader-IsReaderOf_example = bytes_reader-IsReaderOf slice_bytes
