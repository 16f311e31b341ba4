-- ===== src/Tests/Integers.antt =====
-- Integers of byst/src/endianness.rs.
use byst.Prelude.{ℕ, ◌≡◌, refl, List, [], ◌∷◌, ◌++◌, arith, take, ret}
use byst.Io.Slice.{slice_reader, slice_cursor}
use byst.Buf.Vec.{VecWriter, vec_writer}
use byst.Buf.Vec.Contract.{vec_contract, IsSound}
use byst.Endian.{big, little, to_le_bytes, encode, write, read}
use byst.Endian.Round.{read-write}

abbrev at_end : VecWriter
at_end = record { vec = 9 ∷ []; position = 1 }

at_end-IsSound : IsSound at_end
at_end-IsSound = record { within = omega arith; small = omega arith }

-- 0x1234, and a byte after it
abbrev input : List ℕ
input = 18 ∷ 52 ∷ 7 ∷ []

read-write_example :
    ((d' : VecWriter) × (write vec_writer big 2 4660 at_end ≡ ret tt d')
      × (take d'.position d'.vec ≡ (9 ∷ []) ++ encode big 2 4660))
    × ((s' : List ℕ) × (read slice_reader big 2 input ≡ ret 4660 s') × (s' ≡ 7 ∷ []))
unfolding vec_contract slice_cursor encode to_le_bytes
read-write_example =
    read-write vec_contract slice_cursor big 2 4660 at_end input (7 ∷ []) (omega arith)
      at_end-IsSound refl tt refl

encodes_big : encode big 2 4660 ≡ 18 ∷ 52 ∷ []
unfolding encode to_le_bytes
encodes_big = refl

encodes_little : encode little 2 4660 ≡ 52 ∷ 18 ∷ []
unfolding encode to_le_bytes
encodes_little = refl
