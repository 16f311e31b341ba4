-- ===== src/Buf/Partial/Valid.antt =====
-- The invariant of `PartiallyInitialized`, `buf[..initialized]` is initialised, under every operation
-- that changes the buffer.
use byst.Prelude.{
  ℕ, ◌+◌, ◌-◌, ◌≤◌, ◌<◌, min, max, ◌≡◌, sym, ap, ap₂, ◌∙◌, subst, inl, inr, Option, some, List,
  ◌++◌, map, append-nil, arith, le-or-lt, length, take, drop, replicate, length-take, length-drop,
  length-replicate, drop_all, take_all, take-take, overlay, overlay_at, length-overlay_at,
}
use byst.Buf.Fill.{
  IsInit-take, take-assume_init, assume_init, IsInit, map-IsInit, length-assume_init, fill_bytes,
  length-map, assume_init-map, map-replicate,
}
use byst.Buf.Partial.{PartiallyInitialized, new, assume_initialized, clear, bytes, resize, filled}

pub record IsValid (p : PartiallyInitialized) : Type 0 where
  pub in_buf : p.initialized ≤ length p.buf
  pub front : IsInit (take p.initialized p.buf)

pub new-IsValid : (buf : List (Option ℕ)) → IsValid (new buf)
unfolding new
new-IsValid buf = record { in_buf = omega arith; front = tt }

pub clear-IsValid : (p : PartiallyInitialized) → IsValid (clear p)
unfolding clear
clear-IsValid p = record { in_buf = omega arith; front = tt }

pub length-bytes : {p : PartiallyInitialized} → IsValid p → length (bytes p) ≡ p.initialized
unfolding bytes
length-bytes {p} v = omega (
  arith,
  length-assume_init (take p.initialized p.buf),
  length-take p.initialized p.buf,
  v.in_buf,
)

-- Filling `end - pos` bytes behind `pos` with those of `xs`.
module _ {p : PartiallyInitialized} (pos end : ℕ) (xs : List ℕ)
    (f : List (Option ℕ) → List (Option ℕ)) (v : IsValid p)
    (fills : f (take (end - pos) (drop pos p.buf)) ≡ map some xs) (len : pos + length xs ≡ end)
    (k : pos ≤ p.initialized) (h : end ≤ length p.buf) where
  filled-front :
      take (filled p pos end f).initialized (filled p pos end f).buf
      ≡ map some (overlay_at pos xs (bytes p))
  unfolding filled bytes assume_initialized
  filled-front = rw (fills, ← len) (fill_bytes p.initialized pos xs p.buf v.front v.in_buf k)

  pub filled-IsValid : IsValid (filled p pos end f)
  unfolding filled assume_initialized
  filled-IsValid = record {
    in_buf = rw fills (
        omega (
          arith,
          length-overlay_at pos (map some xs) p.buf (omega (arith, length-map xs)),
          v.in_buf,
        ));
    front = subst IsInit (sym filled-front) (map-IsInit (overlay_at pos xs (bytes p)));
  }

  pub bytes-filled : bytes (filled p pos end f) ≡ overlay_at pos xs (bytes p)
  unfolding bytes
  bytes-filled = ap assume_init filled-front ∙ assume_init-map _

-- What was put through the borrow of `peek_chunk_mut` stays in the initialised front.
module _ {p : PartiallyInitialized} (pos : ℕ) (xs : List ℕ) (v : IsValid p)
    (h : pos + length xs ≤ p.initialized) where
  abbrev stored : PartiallyInitialized
  stored = record p { buf = overlay_at pos (map some xs) p.buf }

  stored-front :
      take p.initialized (overlay_at pos (map some xs) p.buf)
      ≡ map some (overlay_at pos xs (bytes p))
  unfolding bytes
  stored-front =
      ap (λ n. take n (overlay_at pos (map some xs) p.buf))
        {y = max p.initialized (pos + length xs)} (omega arith)
      ∙ fill_bytes p.initialized pos xs p.buf v.front v.in_buf (omega arith)

  pub stored-IsValid : IsValid (record p { buf = overlay_at pos (map some xs) p.buf })
  stored-IsValid = record {
    in_buf = omega (
      arith,
      length-overlay_at pos (map some xs) p.buf (omega (arith, length-map xs, v.in_buf)),
      v.in_buf,
    );
    front = subst IsInit (sym stored-front) (map-IsInit (overlay_at pos xs (bytes p)));
  }

  pub bytes-stored :
      bytes (record p { buf = overlay_at pos (map some xs) p.buf }) ≡ overlay_at pos xs (bytes p)
  unfolding bytes
  bytes-stored = ap assume_init stored-front ∙ assume_init-map _

-- The bytes cut at `n` and padded.
abbrev pub resized : ℕ → ℕ → List ℕ → List ℕ
resized n value xs = take n xs ++ replicate (n - length xs) value

overlay-nil : (xs ys : List ℕ) → length ys ≤ length xs → overlay xs ys ≡ xs
overlay-nil xs ys h = ap (xs ++◌) (drop_all (length xs) ys h) ∙ append-nil xs

pad-overlay :
    (i n x : ℕ) (xs : List ℕ)
    → length xs ≡ i
    → i ≤ n
    → overlay_at i (replicate (n - i) x) xs ≡ resized n x xs
pad-overlay i n x xs e h =
    ap₂ ◌++◌ (take_all i xs (omega arith) ∙ sym (take_all n xs (omega arith))) (
      overlay-nil _ (drop i xs) (omega (arith, length-drop i xs, length-replicate (n - i) x))
      ∙ ap (λ k. replicate (n - k) x) (sym e))

resized_cut : (n x : ℕ) (xs : List ℕ) → n ≤ length xs → resized n x xs ≡ take n xs
resized_cut n x xs h =
    ap (λ k. take n xs ++ replicate k x) {x = n - length xs} {y = 0} (omega arith) ∙ append-nil _

resize_grow :
    (p : PartiallyInitialized) (n value : ℕ)
    → IsValid p
    → p.initialized < n
    → n ≤ length p.buf
    → take n (overlay_at p.initialized (replicate (n - p.initialized) (some value)) p.buf)
      ≡ map some (resized n value (bytes p))
unfolding bytes
resize_grow p n value v h k =
    let z = replicate (n - p.initialized) value in
    let l : length (bytes p) ≡ p.initialized = length-bytes v in
    let m : max p.initialized (p.initialized + length z) ≡ n =
      omega (arith, length-replicate (n - p.initialized) value) in
    ap₂ (λ j ys. take j (overlay_at p.initialized ys p.buf)) (sym m)
      (sym (map-replicate (n - p.initialized) value))
    ∙ fill_bytes p.initialized p.initialized z p.buf v.front v.in_buf (omega arith)
    ∙ ap (map some) (pad-overlay p.initialized n value (bytes p) l (omega arith))

bytes-cut :
    (p : PartiallyInitialized) (n : ℕ)
    → n ≤ p.initialized
    → bytes (record p { initialized = n }) ≡ take n (bytes p)
unfolding bytes
bytes-cut p n h =
    ap assume_init (
      ap (λ k. take k p.buf) {y = min n p.initialized} (omega arith)
      ∙ sym (take-take n p.initialized p.buf))
    ∙ take-assume_init n (take p.initialized p.buf)

bytes-of :
    (p : PartiallyInitialized) {xs : List ℕ} → take p.initialized p.buf ≡ map some xs → bytes p ≡ xs
unfolding bytes
bytes-of p {xs = xs} e = ap assume_init e ∙ assume_init-map xs

-- `resize` of a valid partially initialised buffer up to its capacity succeeds and keeps it
-- valid; its bytes are the old ones, cut at the new length, and the value as often as they fall
-- short of it.
pub resize_lem :
    (p : PartiallyInitialized) (n value : ℕ)
    → IsValid p
    → n ≤ length p.buf
    → (q : PartiallyInitialized) × (resize p n value ≡ some q)
      × IsValid q
      × (bytes q ≡ resized n value (bytes p))
unfolding resize
resize_lem p n value v h = elim (le-or-lt n p.initialized) [
  | inl k ↦ (
    record p { initialized = n },
    ground arith,
    record { in_buf = h; front = IsInit-take n p.initialized p.buf k v.front },
    bytes-cut p n k ∙ sym (resized_cut n value (bytes p) (omega (arith, length-bytes v))),
  )
  | inr k ↦
      let e = resize_grow p n value v k h in
      (
        record {
          buf = overlay_at p.initialized (replicate (n - p.initialized) (some value)) p.buf;
          initialized = n;
        },
        ground arith,
        record {
          in_buf = omega (
            arith,
            length-overlay_at p.initialized (replicate (n - p.initialized) (some value)) p.buf,
            length-replicate (n - p.initialized) (some value),
          );
          front = subst IsInit (sym e) (map-IsInit (resized n value (bytes p)));
        },
        bytes-of _ e,
      )
]
