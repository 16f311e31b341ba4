-- ===== src/Tests/Copying.antt =====
-- Copies of byst/src/copy.rs between vectors, slices and buffers.
use byst.Prelude.{ℕ, ◌≡◌, refl, none, some, List, [], ◌∷◌, ◌++◌, arith, take, drop, ok}
use byst.Io.Slice.{slice_reader, slice_cursor}
use byst.Buf.Vec.{VecWriter, vec_writer}
use byst.Buf.Vec.Contract.{vec_contract, IsSound}
use byst.Buf.Partial.{PartiallyInitialized}
use byst.Buf.Partial.Valid.{IsValid}
use byst.Copy.{copy_io}
use byst.Copy.All.{Copies, copy_io-all}
use byst.Copy.Amount.{copy_io-amount}
use byst.Copy.Overrun.{copy_io-overrun}
use byst.Range.{range}
use byst.Copy.Calls.Ranges.{Moves, copy_range_lem}
use byst.Io.Slice.{slice_at, slice_writer, slice_writer_contract}
use byst.Copy.Calls.Buffers.{slice_buf_mut}
use byst.Copy.Calls.{copy_range, copy}
use byst.Copy.Calls.Whole.{copy_lem}
use byst.Copy.Calls.Buffers.{vec_reserve, vec_buf}

abbrev three : List ℕ
three = 1 ∷ 2 ∷ 3 ∷ []

abbrev at_start : VecWriter
at_start = record { vec = 9 ∷ []; position = 0 }

abbrev at_end : VecWriter
at_end = record { vec = 9 ∷ []; position = 1 }

at_start-IsSound : IsSound at_start
at_start-IsSound = record { within = omega arith; small = omega arith }

at_end-IsSound : IsSound at_end
at_end-IsSound = record { within = omega arith; small = omega arith }

copy_io-all_example :
    Copies vec_contract slice_cursor 3 3 at_start three
      (copy_io vec_writer slice_reader at_start three none)
unfolding vec_contract slice_cursor
copy_io-all_example =
    copy_io-all vec_contract slice_cursor none at_start three at_start-IsSound tt tt refl

copy_io-amount_example :
    Copies vec_contract slice_cursor 1 1 at_start three
      (copy_io vec_writer slice_reader at_start three (some 1))
unfolding vec_contract slice_cursor
copy_io-amount_example =
    copy_io-amount vec_contract slice_cursor 1 at_start three at_start-IsSound tt (omega arith)
      (omega arith)

copy_io-overrun_example :
    Copies vec_contract slice_cursor 3 3 at_end three
      (copy_io vec_writer slice_reader at_end three (some 1))
unfolding vec_contract slice_cursor slice_reader
copy_io-overrun_example =
    copy_io-overrun vec_contract slice_cursor 1 at_end three at_end-IsSound tt (omega arith)
      (omega arith) refl refl refl

abbrev half : PartiallyInitialized
half = record { buf = some 5 ∷ none ∷ none ∷ none ∷ []; initialized = 1 }

half-IsValid : IsValid half
half-IsValid = record { in_buf = omega arith; front = tt }

copy_lem_example :
    (d : VecWriter) × (copy vec_buf vec_writer slice_reader (9 ∷ []) three ≡ ok d.vec)
    × IsSound d
    × (take d.position d.vec ++ drop d.position d.vec ≡ three)
unfolding vec_contract slice_cursor slice_reader vec_reserve
copy_lem_example =
    copy_lem vec_buf vec_contract slice_cursor (9 ∷ []) (9 ∷ []) three refl at_start-IsSound tt refl
      refl

copy_range_lem_example :
    Moves slice_buf_mut slice_writer_contract slice_cursor (slice_at [] three) three 1 2 1 (
      copy_range slice_buf_mut slice_writer slice_reader three
        (range (some 1) (some 2))
        three
        (range (some 2) (some 3)))
unfolding slice_writer_contract slice_cursor
copy_range_lem_example =
    copy_range_lem slice_buf_mut slice_writer_contract slice_cursor three three 1 2 1 tt tt
      (omega arith) (omega arith)
