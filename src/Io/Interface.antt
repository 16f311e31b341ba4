-- ===== src/Io/Interface.antt =====
-- The traits of byst/src/io/read.rs and byst/src/io/write.rs, with their errors. A method that takes
-- `&mut self` returns an `Outcome`, which holds the state that it leaves; `S` is the reader's state,
-- `V` the type of its views (`none` for `rest` is a panic), `W` the writer's state, `D` a destination buffer.
use byst.Prelude.{ℕ, Option, List, Result, Outcome}

-- `struct End`
pub record End : Type 0 where
  pub read : ℕ
  pub requested : ℕ
  pub remaining : ℕ

-- `struct Full` of byst/src/io/write.rs
pub record Full : Type 0 where
  pub written : ℕ
  pub requested : ℕ
  pub remaining : ℕ

-- nothing was read, or written
abbrev pub end_at : ℕ → ℕ → End
end_at requested remaining = record { read = 0; requested = requested; remaining = remaining }

abbrev pub full_at : ℕ → ℕ → Full
full_at requested remaining = record { written = 0; requested = requested; remaining = remaining }

-- `trait BufReader`; `view_len` is `Length::len` of its views.
pub record BufReader (S V : Type 0) : Type 0 where
  pub peek_chunk : S → Option (List ℕ)
  pub view : ℕ → S → Outcome S End V
  pub peek_view : ℕ → S → Result End V
  pub rest : S → Option (V × S)
  pub peek_rest : S → Option V
  pub advance : ℕ → S → Outcome S End (Unit {0})
  pub remaining : S → ℕ
  pub view_len : V → ℕ

-- `trait Reader` for a destination `D`, with its error type `E: ReadError`
pub record Reader (S D E : Type 0) : Type 0 where
  pub read_into : Option ℕ → S × D → Outcome (S × D) E ℕ
  pub read_into_exact : ℕ → S × D → Outcome (S × D) E (Unit {0})
  pub skip : ℕ → S → Outcome S E (Unit {0})
  pub from_end : End → E
  pub amount_read : E → ℕ

-- `trait Seek` for positions `P`
pub record Seek (S P : Type 0) : Type 0 where
  pub tell : S → P
  pub seek : P → S → P × S

-- `trait BufWriter`. `peek_chunk_mut` hands out the bytes at the cursor, and `store` is what a
-- caller does through that borrow: it puts bytes over the first ones of the chunk. A mutable view is
-- modelled by the bytes that it shows.
pub record BufWriter (W : Type 0) : Type 0 where
  pub peek_chunk_mut : W → Option (List ℕ)
  pub store : List ℕ → W → W
  pub view_mut : ℕ → W → Outcome W Full (List ℕ)
  pub peek_view_mut : ℕ → W → Outcome W Full (List ℕ)
  pub rest_mut : W → Outcome W Full (List ℕ)
  pub peek_rest_mut : W → Outcome W Full (List ℕ)
  pub advance : ℕ → W → Outcome W Full (Unit {0})
  pub remaining : W → ℕ
  pub extend : List ℕ → W → Outcome W Full (Unit {0})
