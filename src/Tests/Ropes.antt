-- ===== src/Tests/Ropes.antt =====
-- Ropes of byst/src/buf/rope.rs over slices.
use byst.Prelude.{ℕ, ◌≡◌, refl, none, some, List, [], ◌∷◌, arith, length}
use byst.Range.{range, slice_get}
use byst.Rope.{Rope, View, view_len, push, view_checked, view_view}
use byst.Rope.Views.{contents, Shows}
use byst.Rope.Agree.{IsRope, Agrees, rope_view-Agrees, view_view-Agrees, push_lem}

-- two slices, with an offset each
abbrev rope : Rope (List ℕ)
rope = record {
  segments =
      record { offset = 0; buf = 1 ∷ 2 ∷ [] } ∷ record { offset = 2; buf = 3 ∷ 4 ∷ 5 ∷ [] } ∷ [];
}

rope-IsRope : IsRope length rope
rope-IsRope = record { offsets = (refl, (refl, tt)); small = omega arith }

-- the view of "2 3"
abbrev view : View (List ℕ)
view = record { segments = rope.segments; start_offset = 1; end_offset = 1 }

view-Shows : Shows length (λ b. b) (λ b. refl) view (2 ∷ 3 ∷ [])
unfolding view_len
view-Shows = record {
  offsets = (refl, (refl, tt));
  small = omega arith;
  within = omega arith;
  length_lem = refl;
  shows = refl;
}

rope_view-Agrees_example :
    Agrees length
      (λ b. b)
      (λ b. refl)
      (view_checked length (range (some 1) (some 3)) rope)
      (slice_get (range (some 1) (some 3)) (1 ∷ 2 ∷ 3 ∷ 4 ∷ 5 ∷ []))
rope_view-Agrees_example =
    rope_view-Agrees length (λ b. b) (λ b. refl) rope (some 1) (some 3) rope-IsRope
      (omega arith, omega arith)

view_view-Agrees_example :
    Agrees length
      (λ b. b)
      (λ b. refl)
      (view_view length (range (some 1) none) view)
      (slice_get (range (some 1) none) (2 ∷ 3 ∷ []))
view_view-Agrees_example =
    view_view-Agrees length (λ b. b) (λ b. refl) view (2 ∷ 3 ∷ []) (some 1) none view-Shows
      (omega arith, omega arith)

push_lem_example :
    (q : Rope (List ℕ)) × (push length (6 ∷ []) rope ≡ some q)
    × IsRope length q
    × (contents length (λ b. b) (λ b. refl) q.segments ≡ 1 ∷ 2 ∷ 3 ∷ 4 ∷ 5 ∷ 6 ∷ [])
push_lem_example = push_lem length (λ b. b) (λ b. refl) (6 ∷ []) rope rope-IsRope (omega arith)
