-- ===== src/Disable/Cycle.antt =====
-- `recurseAllAncestors` and `recurseAllDescendents` where the links have a cycle.
use azkaban_private.Prelude.{
  ℕ, zero, suc, ◌≡◌, refl, ap, subst, Bool, Option, none, some, [], ◌∷◌, arith, String, >>=-eq-some,
  inl, inr, Memᴰ, Memᴰ-cons, Option-cases,
}
use mathlib.Core.List.Memᴰ
use azkaban_private.Flow.{Ref, Links, Node, Heap, links_of}
use azkaban_private.Disable.{with_disabled, set_disabled, sweep_links, sweep, recurse_all_ancestors}
use azkaban_private.Disable.Sweep.{Above, near, far}

module _ (field : Node → Option Links)
    (keeps : (n : Node) (d : Bool) → field (with_disabled d n) ≡ field n) (d : Bool)
    (get : Ref → Links) where
  abbrev pub Fits : Heap → Type 0
  Fits h = (r : Ref) → links_of (field (h r)) ≡ get r

  -- A call that returns leaves the links as they are.
  abbrev Keeps : (Ref → Heap → Option Heap) → Type 0
  Keeps rec = (y : Ref) (h h' : Heap) → Fits h → rec y h ≡ some h' → Fits h'

  Fits-set : (h : Heap) (y : Ref) → Fits h → Fits (set_disabled h y d)
  Fits-set h y fits r = ground (arith, keeps (h r) d, fits r)

  sweep_links-Keeps :
      (rec : Ref → Heap → Option Heap) (l : Links) (h h' : Heap)
      → Keeps rec
      → Fits h
      → sweep_links rec d l h ≡ some h'
      → Fits h'
  unfolding sweep_links
  sweep_links-Keeps rec [] h h' keep fits e = let same : h ≡ h' = cc in subst Fits same fits
  sweep_links-Keeps rec ((k, y) ∷ l) h h' keep fits e =
      let (h1, e1, e2) = >>=-eq-some (rec y (set_disabled h y d)) (sweep_links rec d l) e in
      sweep_links-Keeps rec l h1 h' keep (keep y (set_disabled h y d) h1 (Fits-set h y fits) e1) e2

  sweep-Keeps : (fuel : ℕ) → Keeps (sweep field d fuel)
  unfolding sweep
  sweep-Keeps zero y h h' fits e = cc
  sweep-Keeps (suc fuel) y h h' fits e =
      sweep_links-Keeps (sweep field d fuel) (links_of (field (h y))) h h' (sweep-Keeps fuel) fits e

  -- A loop that meets a node for which the call never returns does not return.
  sweep_links-stuck :
      (rec : Ref → Heap → Option Heap) (l : Links) (h : Heap) (k : String) (y : Ref)
      → Keeps rec
      → ((g : Heap) → Fits g → rec y g ≡ none)
      → Fits h
      → Memᴰ (k, y) l
      → sweep_links rec d l h ≡ none
  unfolding sweep_links
  sweep_links-stuck rec [] h k y keep stuck fits m = absurd (Memᴰ.not-nil m)
  sweep_links-stuck rec ((j, z) ∷ l) h k y keep stuck fits m =
      elim (Option-cases (rec z (set_disabled h z d))) [
        | inl failed ↦ rw failed
        | inr (h1, e1) ↦ elim ((Memᴰ-cons (k, y) (j, z) l).0 m) [
          | inl e ↦
              let same : y ≡ z = ap (λ p. p.1) e in
              let no_result : rec y (set_disabled h z d) ≡ none =
                stuck (set_disabled h z d) (Fits-set h z fits) in
              cc
          | inr m' ↦ rw e1 (
              sweep_links-stuck rec l h1 k y keep stuck
                (keep z (set_disabled h z d) h1 (Fits-set h z fits) e1) m')
        ]
      ]

  pub sweep-stuck :
      (fuel : ℕ) (r x : Ref) (h : Heap)
      → Fits h
      → Above get r x
      → Above get x x
      → sweep field d fuel r h ≡ none
  unfolding sweep
  sweep-stuck zero r x h fits a c = refl
  sweep-stuck (suc fuel) _ _ h fits (near r k x m) c = rw (fits r) (
      sweep_links-stuck (sweep field d fuel) (get r) h k x (sweep-Keeps fuel)
        (λ g f. sweep-stuck fuel x x g f c c) fits m)
  sweep-stuck (suc fuel) _ _ h fits (far r k y x m a) c = rw (fits r) (
      sweep_links-stuck (sweep field d fuel) (get r) h k y (sweep-Keeps fuel)
        (λ g f. sweep-stuck fuel y x g f a c) fits m)

-- From a node that leads to a cycle of `inNodes`, the recursion over the ancestors calls itself
-- without end: no depth of calls is enough.
pub recurse_all_ancestors-cycle :
    (h : Heap) (r x : Ref) (d : Bool) (fuel : ℕ)
    → Above (λ y. links_of (h y).in_nodes) r x
    → Above (λ y. links_of (h y).in_nodes) x x
    → recurse_all_ancestors fuel r d h ≡ none
unfolding recurse_all_ancestors
recurse_all_ancestors-cycle h r x d fuel =
    sweep-stuck (λ n. n.in_nodes) (λ n e. refl) d (λ y. links_of (h y).in_nodes) fuel r x h
      (λ y. refl)
