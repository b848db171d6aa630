-- ===== src/Execution/Result.antt =====
-- The statuses and times after `updateGraph`, and when it throws.
use azkaban_private.Prelude.{
  ℕ, zero, suc, ◌==◌, ◌≡◌, refl, ◌∙◌, ap, ◌<◌, if◌then◌else◌, Bool, false, true, Option, none, some,
  List, [], ◌∷◌, ◌++◌, lookup, arith, All, Bool-cases, Option-cases, inl, inr, ◌⊎◌, String,
}
use azkaban_private.Flow.{Ref, Node, Heap}
use azkaban_private.GraphModel.{done, type_error}
use azkaban_private.Execution.{with_update, assign_update, update_graph}
use azkaban_private.Execution.Update.{
  Pairing, matched, unmatched, too_deep, followed_by, pair_nodes, pair_up, assign_all, outcome,
  update_graph-outcome,
}

-- The last object of an update that is for the node at `x`.
abbrev pub last_for : Ref → List (Ref × Ref) → Option Ref
last_for x [] = none
last_for x ((d, u) ∷ ps) =
    let rest = last_for x ps in
    elim rest [ none ↦ if d == x then some u else none | some v ↦ some v ]

-- A node with the fields of the object that is for it, if there is one.
abbrev pub updated_by : Heap → Option Ref → Node → Node
updated_by h none n = n
updated_by h (some u) n = record n {
  status = (h u).status;
  start_time = (h u).start_time;
  end_time = (h u).end_time;
  update_time = (h u).update_time;
}

-- The objects of the graph and those of an update are apart.
abbrev pub AreApart : (Ref → Bool) → List (Ref × Ref) → Type 0
AreApart mine ps = All (λ p. (mine p.0 ≡ true) × (mine p.1 ≡ false)) ps

-- An object of the update, but for `changedNode`, is as it was.
abbrev Alike : (Ref → Bool) → Heap → Heap → Type 0
Alike mine h g = (u : Ref) → mine u ≡ false → (n : Node) → with_update (g u) n ≡ with_update (h u) n

apart : (mine : Ref → Bool) (a b : Ref) → mine a ≡ true → mine b ≡ false → (a == b) ≡ false
apart mine a b ma mb = elim (Bool-cases (a == b)) [
  | inl e ↦ let same : a ≡ b = ground arith in cc
  | inr e ↦ e
]

assign_update-Alike :
    (mine : Ref → Bool) (h g : Heap) (d u : Ref)
    → mine d ≡ true
    → Alike mine h g
    → Alike mine h (assign_update d u g)
unfolding assign_update
assign_update-Alike mine h g d u md alike v mv n =
    let other = apart mine d v md mv in
    elim (Bool-cases (u == v)) [
      | inl e ↦ rw (e, other) (alike v mv n)
      | inr e ↦ rw (e, other) (alike v mv n)
    ]

assign_update-own :
    (mine : Ref → Bool) (h g : Heap) (d u x : Ref)
    → mine d ≡ true
    → mine u ≡ false
    → mine x ≡ true
    → Alike mine h g
    → assign_update d u g x ≡ updated_by h (if d == x then some u else none) (g x)
unfolding assign_update
assign_update-own mine h g d u x md mu mx alike =
    let other : (u == x) ≡ false = ground (arith, apart mine x u mx mu) in
    elim (Bool-cases (d == x)) [
      | inl e ↦ rw (e, other) (alike u mu (g x))
      | inr e ↦ rw (e, other) refl
    ]

assign_all-own :
    (mine : Ref → Bool) (h g : Heap) (ps : List (Ref × Ref)) (x : Ref)
    → AreApart mine ps
    → mine x ≡ true
    → Alike mine h g
    → assign_all ps g x ≡ updated_by h (last_for x ps) (g x)
assign_all-own mine h g [] x apart_ps mx alike = refl
assign_all-own mine h g ((d, u) ∷ ps) x ((md, mu), apart_ps) mx alike =
    assign_all-own mine h (assign_update d u g) ps x apart_ps mx
      (assign_update-Alike mine h g d u md alike)
    ∙ ap (updated_by h (last_for x ps)) (assign_update-own mine h g d u x md mu mx alike)
    ∙ over (last_for x ps) (if d == x then some u else none)
  where
    over :
        (o e : Option Ref)
        → updated_by h o (updated_by h e (g x))
          ≡ updated_by h (elim o [ none ↦ e | some v ↦ some v ]) (g x)
    over none e = refl
    over (some v) none = refl
    over (some v) (some w) = refl

-- The graph's objects lead to the graph's by their node maps, and the update's to the update's.
pub record IsUpdate (mine : Ref → Bool) (h : Heap) (depth : Ref → ℕ) : Type 0 where
  pub own :
      (d : Ref) (k : String) (x : Ref)
      → mine d ≡ true
      → lookup k (h d).node_map ≡ some x
      → mine x ≡ true
  pub sent :
      (u : Ref) → mine u ≡ false → All (λ v. (mine v ≡ false) × (depth v < depth u)) (h u).nodes

-- A pairing of enough depth that is apart.
abbrev IsGood : (Ref → Bool) → Pairing → Type 0
IsGood mine (matched ps) = AreApart mine ps
IsGood mine unmatched = Unit
IsGood mine too_deep = ⊥

AreApart-append :
    (mine : Ref → Bool) (ps qs : List (Ref × Ref))
    → AreApart mine ps
    → AreApart mine qs
    → AreApart mine (ps ++ qs)
AreApart-append mine [] qs a b = b
AreApart-append mine (p ∷ ps) qs a b = (a.0, AreApart-append mine ps qs a.1 b)

followed_by-IsGood :
    (mine : Ref → Bool) (p q : Pairing)
    → IsGood mine p
    → IsGood mine q
    → IsGood mine (followed_by p q)
followed_by-IsGood mine (matched ps) (matched qs) a b = AreApart-append mine ps qs a b
followed_by-IsGood mine (matched ps) unmatched a b = tt
followed_by-IsGood mine (matched ps) too_deep a b = b
followed_by-IsGood mine unmatched q a b = tt
followed_by-IsGood mine too_deep q a b = absurd a

module _ (mine : Ref → Bool) (h : Heap) (depth : Ref → ℕ) (i : IsUpdate mine h depth) where
  pair_nodes-IsGood :
      (pair : Ref → Ref → Pairing) (d : Ref) (us : List Ref)
      → mine d ≡ true
      → All (λ u. (x : Ref) → mine x ≡ true → IsGood mine (pair x u)) us
      → IsGood mine (pair_nodes pair h (h d).node_map us)
  pair_nodes-IsGood pair d [] md good = tt
  pair_nodes-IsGood pair d (u ∷ us) md (good_u, good) =
      elim (Option-cases (lookup (h u).id (h d).node_map)) [
        | inl missing ↦ rw (missing, pair_nodes) tt
        | inr (x, found) ↦
            rw (found, pair_nodes)
              (followed_by-IsGood mine (pair x u) (pair_nodes pair h (h d).node_map us)
                (good_u x (i.own d (h u).id x md found)) (pair_nodes-IsGood pair d us md good))
      ]

  each_below :
      (top fuel : ℕ) (us : List Ref)
      → All (λ v. (mine v ≡ false) × (depth v < top)) us
      → top < suc fuel
      → ((v : Ref)
          → mine v ≡ false
          → depth v < fuel
          → (x : Ref) → mine x ≡ true
          → IsGood mine (pair_up fuel h x v))
      → All (λ v. (x : Ref) → mine x ≡ true → IsGood mine (pair_up fuel h x v)) us
  each_below top fuel [] a enough good = tt
  each_below top fuel (v ∷ us) ((mv, low), a) enough good =
      (good v mv (omega arith), each_below top fuel us a enough good)

  pair_up-IsGood :
      (fuel : ℕ) (d u : Ref)
      → mine d ≡ true
      → mine u ≡ false
      → depth u < fuel
      → IsGood mine (pair_up fuel h d u)
  pair_up-IsGood zero d u md mu deep = absurd (omega arith)
  pair_up-IsGood (suc fuel) d u md mu deep =
      followed_by-IsGood mine (matched ((d, u) ∷ [])) _ ((md, mu), tt)
        (pair_nodes-IsGood (pair_up fuel h) d (h u).nodes md (
          each_below (depth u) fuel (h u).nodes (i.sent u mu) (omega arith)
            (λ v mv low x mx. pair_up-IsGood fuel x v mx mv low)))

-- `updateGraph` with an update whose objects are apart from those of the graph and nested less deep
-- than the fuel: if each id of the update is in the node map that it is looked up in, the call
-- returns, and each object of the graph has the status and the times of the last object of the
-- update that is for it, and is unchanged if none is; otherwise the call throws a TypeError.
pub update_graph_lem :
    (mine : Ref → Bool) (h : Heap) (depth : Ref → ℕ)
    → IsUpdate mine h depth
    → (fuel : ℕ) (d u : Ref) → mine d ≡ true
    → mine u ≡ false
    → depth u < fuel
    → ((ps : List (Ref × Ref)) × (h' : Heap) × (pair_up fuel h d u ≡ matched ps)
        × (update_graph fuel d u h ≡ done h')
        × ((x : Ref) → mine x ≡ true → h' x ≡ updated_by h (last_for x ps) (h x)))
      ⊎ (pair_up fuel h d u ≡ unmatched) × (update_graph fuel d u h ≡ type_error)
update_graph_lem mine h depth i fuel d u md mu deep =
    of_pairing (pair_up fuel h d u) refl (pair_up-IsGood mine h depth i fuel d u md mu deep)
  where
    ran : update_graph fuel d u h ≡ outcome (pair_up fuel h d u) h
    ran = update_graph-outcome fuel h d u h (λ r. (refl, refl, refl))

    of_pairing :
        (p : Pairing)
        → pair_up fuel h d u ≡ p
        → IsGood mine p
        → ((ps : List (Ref × Ref)) × (h' : Heap) × (pair_up fuel h d u ≡ matched ps)
            × (update_graph fuel d u h ≡ done h')
            × ((x : Ref) → mine x ≡ true → h' x ≡ updated_by h (last_for x ps) (h x)))
          ⊎ (pair_up fuel h d u ≡ unmatched) × (update_graph fuel d u h ≡ type_error)
    of_pairing (matched ps) e good = inl (
      ps,
      assign_all ps h,
      e,
      ran ∙ ap (λ p. outcome p h) e,
      λ x mx. assign_all-own mine h h ps x good mx (λ v mv n. refl),
    )
    of_pairing too_deep e good = absurd good
    of_pairing unmatched e good = inr (e, ran ∙ ap (λ p. outcome p h) e)
