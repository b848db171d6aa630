-- ===== src/Layout/Vertical/Spaced.antt =====
-- How far spaceVertically keeps the layers apart.
use azkaban_private.Prelude.{
  ℕ, ◌+◌, ◌*◌, ◌≤◌, ◌≡◌, refl, max, some, List, [], ◌∷◌, All, All-weaker, arith,
}
use azkaban_private.Prelude.Signed.{Signed, distance}
use azkaban_private.Layout.Vertical.{
  Box, max_height, max_distance, max_delta, space_from, space_vertically,
}

max_height-bounds :
    (acc : ℕ) (layer : List Box)
    → (acc ≤ max_height acc layer) × All (λ b. b.height ≤ max_height acc layer) layer
max_height-bounds acc [] = (ground arith, tt)
max_height-bounds acc (b ∷ layer) =
    let (low, each) = max_height-bounds (max acc b.height) layer in
    (omega arith, (omega arith, each))

max_low : (a b m : ℕ) → max a b ≤ m → (a ≤ m) × (b ≤ m)
max_low a b m low = (omega arith, omega arith)

max_distance-bounds :
    (acc : ℕ) (x : Signed) (uppers : List Signed)
    → (acc ≤ max_distance acc x uppers)
      × All (λ upper. distance upper x ≤ max_distance acc x uppers) uppers
max_distance-bounds acc x [] = (ground arith, tt)
max_distance-bounds acc x (upper ∷ uppers) =
    let (low, each) = max_distance-bounds (max acc (distance upper x)) x uppers in
    let (old, new) = max_low acc (distance upper x) _ low in (old, (new, each))

le_trans : (a b c : ℕ) → a ≤ b → b ≤ c → a ≤ c
le_trans a b c low high = omega arith

max_delta-bounds :
    (acc : ℕ) (layer : List Box)
    → (acc ≤ max_delta acc layer)
      × All (λ b. All (λ upper. distance upper b.x ≤ max_delta acc layer) b.uppers) layer
max_delta-bounds acc [] = (ground arith, tt)
max_delta-bounds acc (b ∷ layer) =
    let next = max_distance acc b.x b.uppers in
    let (grown, of_first) = max_distance-bounds acc b.x b.uppers in
    let (low, each) = max_delta-bounds next layer in
    (
      le_trans acc next _ grown low,
      (
        All-weaker (λ upper. distance upper b.x ≤ next) _
            (λ upper near. le_trans (distance upper b.x) next _ near low) b.uppers of_first,
        each,
      ),
    )

-- How two layers stand that are drawn at `y` and `z`: the lower end of each node of the first is 40
-- pixels or more above the upper end of each node of the second, and a line from the first layer to
-- a node of the second falls by an eighth of what it goes sideways, at least.
pub record AreSpaced (k : ℕ) (upper lower : List Box) (y z : ℕ) : Type 0 where
  pub gap : All (λ a. All (λ b. y + 4 * a.height + 8 * (40 * k) + 4 * b.height ≤ z) lower) upper
  pub slope : All (λ b. All (λ x. y + distance x b.x ≤ z) b.uppers) lower

-- Each layer has its height, and neighbours are spaced.
abbrev pub AllSpaced : ℕ → List (List Box) → List ℕ → Type 0
AllSpaced k [] [] = Unit
AllSpaced k (layer ∷ []) (y ∷ []) = Unit
AllSpaced k (upper ∷ lower ∷ layers) (y ∷ z ∷ ys) =
    AreSpaced k upper lower y z × AllSpaced k (lower ∷ layers) (z ∷ ys)
AllSpaced k _ _ = ⊥

module _ (k : ℕ) where
  step-AreSpaced :
      (upper lower : List Box) (y : ℕ)
      → AreSpaced k upper lower y (
          y
          + max
              (max_delta 0 lower)
              (8 * (40 * k) + 4 * max_height k upper + 4 * max_height k lower))
  step-AreSpaced upper lower y = record {
    gap =
        All-weaker (λ a. a.height ≤ max_height k upper) _
          (λ a high.
            All-weaker (λ b. b.height ≤ max_height k lower) _ (λ b high'. omega arith) lower
              (max_height-bounds k lower).1)
          upper (max_height-bounds k upper).1;
    slope =
        All-weaker (λ b. All (λ x. distance x b.x ≤ max_delta 0 lower) b.uppers) _
          (λ b near.
            All-weaker (λ x. distance x b.x ≤ max_delta 0 lower) _
              (λ x n. sideways y (distance x b.x) (max_delta 0 lower) _ n) b.uppers near)
          lower (max_delta-bounds 0 lower).1;
  }
    where
      sideways : (y d m n : ℕ) → d ≤ m → y + d ≤ y + max m n
      sideways y d m n near = omega arith

  space_from-AllSpaced :
      (upper : List Box) (y : ℕ) (layers : List (List Box))
      → AllSpaced k (upper ∷ layers) (y ∷ space_from k y (max_height k upper) layers)
  unfolding space_from
  space_from-AllSpaced upper y [] = tt
  space_from-AllSpaced upper y (lower ∷ layers) =
      (step-AreSpaced upper lower y, space_from-AllSpaced lower _ layers)

  -- With a layer, spaceVertically returns a height for each layer, and between neighbours the nodes
  -- of the upper one end 40 pixels or more above those of the lower one, and no line to a node of
  -- the lower one is flatter than an eighth.
  pub space_vertically-AllSpaced :
      (layer : List Box) (layers : List (List Box))
      → (ys : List ℕ) × (space_vertically k (layer ∷ layers) ≡ some ys)
        × AllSpaced k (layer ∷ layers) ys
  unfolding space_vertically
  space_vertically-AllSpaced layer layers =
      (0 ∷ space_from k 0 (max_height k layer) layers, refl, space_from-AllSpaced layer 0 layers)
