-- ===== src/Tests/Iterators.antt =====
-- The iterators of byst/src/util.rs and byst/src/buf/chunks.rs over a list, which is taken from both
-- ends.
use byst.Prelude.{ℕ, ◌≡◌, refl, ap, Option, none, some, List, [], ◌∷◌, arith, length}
use byst.Io.Slice.{slice_reader, slice_cursor}
use byst.Iter.{DoubleEnded, Front, Back, IsDeque}
use byst.Iter.Peekable.{Peekable}
use byst.Iter.Ends.{is_end_iter, next_marked, next_back_marked}
use byst.Iter.Ends.Marks.{MarksFront, MarksBack, marks-ends}
use byst.Iter.Chunks.{collect, next_non_empty}
use byst.Iter.Chunks.All.{collect-contents, Filtered, next_non_empty-Filtered}

abbrev pop_front : {A : Type 0} → List A → Option A × List A
pop_front [] = (none, [])
pop_front (x ∷ xs) = (some x, xs)

abbrev push_front : {A : Type 0} → A → Option A × List A → Option A × List A
push_front x (y, ys) = (y, x ∷ ys)

abbrev pop_back : {A : Type 0} → List A → Option A × List A
pop_back [] = (none, [])
pop_back (x ∷ []) = (some x, [])
pop_back (x ∷ y ∷ ys) = push_front x (pop_back (y ∷ ys))

abbrev deque : {A : Type 0} → DoubleEnded (List A) A
deque = record { next = pop_front; next_back = pop_back }

Front-of : {A : Type 0} (xs : List A) → Front (λ ys. ys) (pop_front xs) xs
Front-of [] = (refl, refl)
Front-of (x ∷ xs) = refl

-- An item in front of a list that is not empty stays.
push_front-Back :
    {A : Type 0} (x y : A) (ys : List A) (o : Option A × List A)
    → Back (λ zs. zs) o (y ∷ ys)
    → Back (λ zs. zs) (push_front x o) (x ∷ y ∷ ys)
push_front-Back x y ys (none, zs) (e, _) = absurd (omega (arith, ap length e))
push_front-Back x y ys (some z, zs) e = ap (x ∷◌) e

Back-of : {A : Type 0} (xs : List A) → Back (λ ys. ys) (pop_back xs) xs
Back-of [] = (refl, refl)
Back-of (x ∷ []) = refl
Back-of (x ∷ y ∷ ys) = push_front-Back x y ys (pop_back (y ∷ ys)) (Back-of (y ∷ ys))

abbrev deque-IsDeque : {A : Type 0} → IsDeque (deque {A = A})
deque-IsDeque = record { items = λ xs. xs; fronts = Front-of; backs = Back-of }

abbrev three : List ℕ
three = 1 ∷ 2 ∷ 3 ∷ []

abbrev peeked : Peekable (List ℕ) ℕ
peeked = record { inner = 2 ∷ []; peeked = some 1; peeked_back = some 3 }

marks-ends_example :
    MarksFront deque-IsDeque three [] [] (next_marked deque (is_end_iter three))
    × MarksBack deque-IsDeque three [] [] (next_back_marked deque (is_end_iter three))
marks-ends_example = marks-ends deque-IsDeque three [] [] (is_end_iter three) (refl, (refl, refl))

collect-contents_example : collect slice_reader 4 three ≡ some three
unfolding slice_cursor
collect-contents_example = collect-contents slice_cursor 4 three tt (omega arith)

next_non_empty-Filtered_example :
    Filtered deque-IsDeque (λ n. n) (next_non_empty deque (λ n. n) (0 ∷ three)) (0 ∷ three)
next_non_empty-Filtered_example = next_non_empty-Filtered deque-IsDeque (λ n. n) (0 ∷ three)
