-- ===== src/Layout/Spread/Apart.antt =====
-- The two loops of spreadLayerSmart over the ranges, and what they keep of them.
use azkaban_private.Prelude.{
  ℕ, zero, suc, ◌+◌, ◌-◌, ◌/◌, ◌%◌, ◌==◌, ◌≤◌, ◌≡◌, refl, ap, ◌∙◌, List, [], ◌∷◌, length, map,
  arith, Bool-cases, inl, inr,
}
use azkaban_private.Prelude.Signed.{Signed, whole, ◌⊕◌, ◌⊖◌, ◌⊑◌, below}
use azkaban_private.Layout.Spread.{
  Range, Placed, twice, placed_at, left_of, right_of, place_left, place_right, split_at, place_odd,
  place_pair, place_even, place_ranges,
}

abbrev pub right_end : Placed → Signed
right_end p = p.x ⊕ whole p.width

abbrev pub left_end : Placed → Signed
left_end p = p.x ⊖ whole p.width

-- From `b` on, each is to the right of the one before.
abbrev pub Follows : Signed → List Placed → Type 0
Follows b [] = Unit
Follows b (p ∷ ps) = (b ⊑ left_end p) × Follows (right_end p) ps

abbrev pub Chain : List Placed → Type 0
Chain [] = Unit
Chain (p ∷ ps) = Follows (right_end p) ps

left_of-end : (next : Placed) (r : Range) → right_end (left_of next r) ⊑ left_end next
unfolding left_of
left_of-end next r = ground arith

right_of-end : (prev : Placed) (r : Range) → right_end prev ⊑ left_end (right_of prev r)
unfolding right_of
right_of-end prev r = ground arith

place_pair-ends : (s e : Range) → right_end (place_pair s e).0 ⊑ left_end (place_pair s e).1
unfolding place_pair
place_pair-ends s e = ground arith

place_left-Chain :
    (before : List Range) (next : Placed) (placed : List Placed)
    → Follows (right_end next) placed
    → Chain (place_left before next placed)
place_left-Chain [] next placed follows = follows
place_left-Chain (r ∷ before) next placed follows =
    place_left-Chain before (left_of next r) (next ∷ placed) (left_of-end next r, follows)

place_right-Follows :
    (prev : Placed) (after : List Range) → Follows (right_end prev) (place_right prev after)
place_right-Follows prev [] = tt
place_right-Follows prev (r ∷ after) =
    (right_of-end prev r, place_right-Follows (right_of prev r) after)

place_odd-Chain : (before after : List Range) → Chain (place_odd before after)
unfolding place_odd
place_odd-Chain before [] = tt
place_odd-Chain before (r ∷ after) =
    let middle = placed_at r (twice r.x) in
    place_left-Chain before middle (place_right middle after) (place_right-Follows middle after)

place_even-Chain : (before after : List Range) → Chain (place_even before after)
unfolding place_even
place_even-Chain before [] = tt
place_even-Chain before (s ∷ []) = tt
place_even-Chain before (s ∷ e ∷ after) =
    let (p, q) = place_pair s e in
    place_left-Chain before p (q ∷ place_right q after)
      (place_pair-ends s e, place_right-Follows q after)

pub place_ranges-Chain : (ranges : List Range) → Chain (place_ranges ranges)
unfolding place_ranges
place_ranges-Chain ranges =
    let n = length ranges in
    elim (Bool-cases (n == 1)) [
      | inl e ↦ rw e (place_odd-Chain [] ranges)
      | inr e ↦ elim (Bool-cases (n % 2 == 1)) [
        | inl e' ↦ rw (e, e') (place_odd-Chain _ _)
        | inr e' ↦ rw (e, e') (place_even-Chain _ _)
      ]
    ]

-- What placing keeps of a range.
abbrev pub Shape : Type 0
Shape = ℕ × (ℕ × List ℕ)

abbrev pub range_shape : Range → Shape
range_shape r = (r.width, (r.first, r.others))

abbrev pub shape : Placed → Shape
shape p = (p.width, (p.first, p.others))

abbrev shapes_before : List Range → List Shape → List Shape
shapes_before [] l = l
shapes_before (r ∷ before) l = shapes_before before (range_shape r ∷ l)

left_of-shape : (next : Placed) (r : Range) → shape (left_of next r) ≡ range_shape r
unfolding left_of
left_of-shape next r = refl

right_of-shape : (prev : Placed) (r : Range) → shape (right_of prev r) ≡ range_shape r
unfolding right_of
right_of-shape prev r = refl

place_pair-shapes :
    (s e : Range)
    → (shape (place_pair s e).0 ≡ range_shape s) × (shape (place_pair s e).1 ≡ range_shape e)
unfolding place_pair
place_pair-shapes s e =
    elim (Bool-cases (below (twice e.x ⊖ whole e.width) (twice s.x ⊕ whole s.width))) [
      | inl b ↦ rw b (refl, refl)
      | inr b ↦ rw b (refl, refl)
    ]

place_left-shapes :
    (before : List Range) (next : Placed) (placed : List Placed)
    → map shape (place_left before next placed)
      ≡ shapes_before before (shape next ∷ map shape placed)
place_left-shapes [] next placed = refl
place_left-shapes (r ∷ before) next placed =
    place_left-shapes before (left_of next r) (next ∷ placed)
    ∙ ap (λ s. shapes_before before (s ∷ shape next ∷ map shape placed)) (left_of-shape next r)

place_right-shapes :
    (prev : Placed) (after : List Range)
    → map shape (place_right prev after) ≡ map range_shape after
place_right-shapes prev [] = refl
place_right-shapes prev (r ∷ after) =
    rw (right_of-shape prev r, place_right-shapes (right_of prev r) after) refl

split_at-shapes :
    (n : ℕ) (before ranges : List Range)
    → n ≤ length ranges
    → let (l, r) = split_at n before ranges in
      (shapes_before l (map range_shape r) ≡ shapes_before before (map range_shape ranges))
      × (length r + n ≡ length ranges)
split_at-shapes zero before ranges low = (refl, ground arith)
split_at-shapes (suc n) before [] low = absurd (omega arith)
split_at-shapes (suc n) before (r ∷ ranges) low =
    let (e, e') = split_at-shapes n (r ∷ before) ranges (omega arith) in (e, omega arith)

place_odd-shapes :
    (before after : List Range)
    → 1 ≤ length after
    → map shape (place_odd before after) ≡ shapes_before before (map range_shape after)
unfolding place_odd
place_odd-shapes before [] low = absurd (omega arith)
place_odd-shapes before (r ∷ after) low =
    let middle = placed_at r (twice r.x) in
    place_left-shapes before middle (place_right middle after)
    ∙ ap (λ l. shapes_before before (range_shape r ∷ l)) (place_right-shapes middle after)

place_even-shapes :
    (before after : List Range)
    → 2 ≤ length after
    → map shape (place_even before after) ≡ shapes_before before (map range_shape after)
unfolding place_even
place_even-shapes before [] low = absurd (omega arith)
place_even-shapes before (s ∷ []) low = absurd (omega arith)
place_even-shapes before (s ∷ e ∷ after) low =
    let (p, q) = place_pair s e in
    let (same_s, same_e) = place_pair-shapes s e in
    place_left-shapes before p (q ∷ place_right q after)
    ∙ rw (same_s, same_e, place_right-shapes q after) refl

pub place_ranges-shapes :
    (ranges : List Range)
    → 1 ≤ length ranges
    → map shape (place_ranges ranges) ≡ map range_shape ranges
unfolding place_ranges
place_ranges-shapes ranges low =
    let n = length ranges in
    elim (Bool-cases (n == 1)) [
      | inl e ↦ rw e (place_odd-shapes [] ranges low)
      | inr e ↦ elim (Bool-cases (n % 2 == 1)) [
        | inl e' ↦
            let (kept, rest) = split_at-shapes ((n + 1) / 2) [] ranges (ground arith) in
            rw (e, e') (place_odd-shapes _ _ (ground arith) ∙ kept)
        | inr e' ↦
            let (kept, rest) = split_at-shapes (n / 2 - 1) [] ranges (ground arith) in
            rw (e, e') (place_even-shapes _ _ (ground arith) ∙ kept)
      ]
    ]
