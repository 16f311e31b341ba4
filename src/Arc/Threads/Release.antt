-- ===== src/Arc/Threads/Release.antt =====
-- Letting go of the handles of an allocated buffer, of byst/src/buf/arc_buf.rs.
use byst.Prelude.{
  ℕ, zero, suc, ◌+◌, ◌≡◌, refl, ap₂, ◌∙◌, inl, inr, Bool, false, not, ◌&&◌, arith, ◌==◌, Bool-cases,
  le-or-lt,
}
use byst.Arc.Threads.{
  Threads, dropped, unclaimed, deallocated, Step, drops, unclaims, deallocates, Reachable,
}
use byst.Arc.Threads.Sound.{IsSound, releases, Step-IsSound, drop-of, reachable-IsSound}

pub data Steps : Threads → Threads → Type 0 where
  stays : (t : Threads) → Steps t t
  goes : (t u v : Threads) → Step t u → Steps u v → Steps t v

-- No handle is left, and the buffer is deallocated once, with no thread about to do so again.
pub record IsReleased (t : Threads) : Type 0 where
  pub no_refs : t.refs ≡ 0
  pub no_reclaim : t.reclaim ≡ false
  pub none_due : t.due ≡ 0
  pub freed_once : t.freed ≡ 1

abbrev CanRelease : Threads → Type 0
CanRelease t = (u : Threads) × Steps t u × IsReleased u

first-Step : {t u : Threads} → Step t u → CanRelease u → CanRelease t
first-Step {t} {u} s (v, w, r) = (v, goes t u v s w, r)

-- the state without handles
no_handles : (t : Threads) → IsSound t → t.refs ≡ 0 → t.reclaim ≡ false → CanRelease t
unfolding deallocated
no_handles t s e f =
    let one : t.due + t.freed ≡ 1 = s.once ∙ ap₂ releases e f in
    elim (le-or-lt t.due 0) [
      | inl h ↦ (
        t,
        stays t,
        record { no_refs = e; no_reclaim = f; none_due = omega arith; freed_once = omega arith },
      )
      | inr h ↦ (
        deallocated t,
        goes t (deallocated t) (deallocated t) (deallocates t h) (stays (deallocated t)),
        record { no_refs = e; no_reclaim = f; none_due = omega arith; freed_once = omega arith },
      )
    ]

-- dropping one reference after the other
drop_all_refs : (n : ℕ) (t : Threads) → IsSound t → t.refs ≡ n → t.reclaim ≡ false → CanRelease t
unfolding dropped
drop_all_refs zero t s e f = no_handles t s e f
drop_all_refs (suc n) t s e f =
    let must : Bool = (t.refs == 1) && not t.reclaim in
    let step : Step t (dropped must t) =
      drops t must (omega arith) (drop-of t.refs t.reclaim t.word (omega arith) s.counts s.fits) in
    first-Step step (drop_all_refs n (dropped must t) (Step-IsSound step s) (omega arith) f)

-- From every reachable state of the threads that share a buffer there are steps to one in which
-- no handle is left and the buffer was deallocated exactly once.
pub reachable-CanRelease : (t : Threads) → Reachable t → (u : Threads) × Steps t u × IsReleased u
unfolding unclaimed
reachable-CanRelease t h =
    let s = reachable-IsSound t h in
    elim (Bool-cases t.reclaim) [
      | inr e ↦ drop_all_refs t.refs t s refl e
      | inl e ↦
          let step = unclaims t e in
          first-Step step (drop_all_refs t.refs (unclaimed t) (Step-IsSound step s) refl refl)
    ]
