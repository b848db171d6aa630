-- ===== src/Layout.antt =====
-- util/layout.js: the levels and the layers of `prepareLayout`.
pub mod Loop
pub mod Correct
pub mod Longest
pub mod Layers
pub mod Downward
pub mod Spread
pub mod Dummies
pub mod Vertical
mod Tests
use azkaban_private.Prelude.{
  ℕ, zero, suc, ◌+◌, ◌<◌, ◌==◌, ◌≡◌, refl, if◌then◌else◌, Bool, false, true, Option, none, some,
  List, [], ◌∷◌, ◌++◌, map, max, ltb, String,
}
use azkaban_private.Flow.{Ref, Links, Node, Heap, Level, undefined, nan, num, modify, links_of}

-- `Math.max` and `+ 1` on levels: an absent level makes the result NaN.
abbrev pub max_level : Level → Level → Level
max_level (num a) (num b) = num (max a b)
max_level _ _ = nan

abbrev pub next_level : Level → Level
next_level (num a) = num (a + 1)
next_level _ = nan

-- The first loop: the nodes without `inNodes` start the queue.
abbrev pub start_queue : Heap → List Ref → List Ref
start_queue h [] = []
start_queue h (r ∷ rs) =
    let rest = start_queue h rs in elim (h r).in_nodes [ none ↦ r ∷ rest | some l ↦ rest ]

-- The loop over `node.inNodes`, given the levels of the nodes.
abbrev pub max_over : (Ref → Level) → Level → Links → Level
max_over level acc [] = acc
max_over level acc (e ∷ l) = max_over level (max_level acc (level e.1)) l

-- The level that a node gets when it is taken off the queue.
unfoldable pub level_from : (Ref → Level) → Option Links → Level
level_from level none = num 0
level_from level (some l) = next_level (max_over level (num 0) l)

abbrev pub with_level : Level → Node → Node
with_level l n = record n { level = l }

-- One round of the `while` loop, for the node at `u`.
abbrev pub relabel : Ref → Heap → Heap
relabel u h = modify h u (with_level (level_from (λ r. (h r).level) (h u).in_nodes))

-- The references of a map, in the order of its keys.
abbrev pub targets : Links → List Ref
targets [] = []
targets (e ∷ l) = e.1 ∷ targets l

-- The `while` loop; `none` is too little fuel. Entries before `index` are never read again.
unfoldable pub level_loop : ℕ → List Ref → Heap → Option Heap
level_loop fuel [] h = some h
level_loop zero (u ∷ queue) h = none
level_loop (suc fuel) (u ∷ queue) h =
    level_loop fuel (queue ++ targets (links_of (h u).out_nodes)) (relabel u h)

-- Two keys of `layers` are one.
abbrev pub same_level : Level → Level → Bool
same_level undefined undefined = true
same_level nan nan = true
same_level (num a) (num b) = a == b
same_level _ _ = false

-- `layers[level].push(node)`
abbrev pub push_layer : Level → Ref → (Level → List Ref) → Level → List Ref
push_layer l r layers k = if same_level l k then layers k ++ r ∷ [] else layers k

-- The last loop: each node goes to the end of its level's layer, and the greatest level is kept.
unfoldable pub assign_layers :
    Heap → List Ref → (Level → List Ref) → Level → (Level → List Ref) × Level
assign_layers h [] layers top = (layers, top)
assign_layers h (r ∷ rs) layers top =
    assign_layers h rs (push_layer (h r).level r layers) (max_level (h r).level top)

-- `prepareLayout`, for the nodes `ns` in the order that `nodes.sort(idSort)` gives and `rs` in the
-- order before: the levels, then the layers and the greatest level.
unfoldable pub prepare_layout :
    ℕ → List Ref → List Ref → Heap → Option (Heap × (Level → List Ref) × Level)
prepare_layout fuel rs ns h = elim (level_loop fuel (start_queue h rs) h) [
  | none ↦ none
  | some h' ↦ let (layers, top) = assign_layers h' ns (λ k. []) (num 0) in some (h', layers, top)
]
