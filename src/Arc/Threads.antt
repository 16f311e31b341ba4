-- ===== src/Arc/Threads.antt =====
-- The handles of one allocated buffer, in the hands of any number of threads. Every step is one operation on
-- the atomic word, with the handle that it makes or ends; a thread that was told to deallocate does so in
-- a later step.
pub mod Sound
pub mod Release
use byst.Prelude.{
  ℕ, suc, ◌+◌, ◌-◌, ◌*◌, ◌<◌, ◌≡◌, Bool, true, false, some, if◌then◌else◌, usize_mod,
}
use byst.Arc.Count.{new, increment, decrement, make_unreclaimable, try_reclaim, bit}

-- The `BufferRef`s and the `Reclaim` that exist, the word, how many threads are about to deallocate the
-- buffer, and how often it was deallocated.
pub record Threads : Type 0 where
  pub refs : ℕ
  pub reclaim : Bool
  pub word : ℕ
  pub due : ℕ
  pub freed : ℕ

-- `ArcBufMut::new` and `ArcBufMut::new_reclaimable`
unfoldable pub allocated : Bool → Threads
allocated reclaim = record { refs = 1; reclaim = reclaim; word = new 1 reclaim; due = 0; freed = 0 }

-- `BufferRef::clone`
unfoldable pub cloned : Threads → Threads
cloned t = record t { refs = suc t.refs; word = increment t.word }

-- `BufferRef::drop`, where the assertion holds
unfoldable pub dropped : Bool → Threads → Threads
dropped must t = record t { refs = t.refs - 1; word = (decrement t.word).1; due = t.due + bit must }

-- `Reclaim::drop`
unfoldable pub unclaimed : Threads → Threads
unclaimed t = record t {
  reclaim = false;
  word = (make_unreclaimable t.word).1;
  due = t.due + bit (make_unreclaimable t.word).0;
}

-- `Reclaim::try_reclaim`, which makes a reference where it succeeds
unfoldable pub reclaimed : Threads → Threads
reclaimed t = record t {
  refs = if (try_reclaim t.word).0 then suc t.refs else t.refs;
  word = (try_reclaim t.word).1;
}

-- `Buffer::deallocate`
unfoldable pub deallocated : Threads → Threads
deallocated t = record t { due = t.due - 1; freed = suc t.freed }

-- A thread clones a reference that it holds only while the count fits into the word.
pub data Step : Threads → Threads → Type 0 where
  clones : (t : Threads) → 0 < t.refs → suc t.refs * 2 + 1 < usize_mod → Step t (cloned t)
  drops :
      (t : Threads) (must : Bool)
      → 0 < t.refs
      → (decrement t.word).0 ≡ some must
      → Step t (dropped must t)
  unclaims : (t : Threads) → t.reclaim ≡ true → Step t (unclaimed t)
  reclaims : (t : Threads) → t.reclaim ≡ true → Step t (reclaimed t)
  deallocates : (t : Threads) → 0 < t.due → Step t (deallocated t)

pub data Reachable : Threads → Type 0 where
  start : (reclaim : Bool) → Reachable (allocated reclaim)
  after : (t u : Threads) → Reachable t → Step t u → Reachable u
