-- ===== src/Tests/Buffers.antt =====
-- The buffers of byst/src/buf/partially_initialized.rs and byst/src/buf/array_buf.rs.
use byst.Prelude.{ℕ, none, some, List, [], ◌∷◌, arith}
use byst.Buf.Partial.{PartiallyInitialized}
use byst.Buf.Partial.Valid.{IsValid}

abbrev half : PartiallyInitialized
half = record { buf = some 5 ∷ some 6 ∷ none ∷ none ∷ []; initialized = 2 }

half-IsValid : IsValid half
half-IsValid = record { in_buf = omega arith; front = tt }

abbrev whole : PartiallyInitialized
whole = record { buf = some 5 ∷ some 6 ∷ []; initialized = 2 }

whole-IsValid : IsValid whole
whole-IsValid = record { in_buf = omega arith; front = tt }

abbrev five_six : List ℕ
five_six = 5 ∷ 6 ∷ []
