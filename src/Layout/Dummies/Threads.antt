-- ===== src/Layout/Dummies/Threads.antt =====
-- The loop of layoutGraph over the levels that an edge passes, and that over the edges.
use mathlib.Core.List.Memᴰ
use azkaban_private.Prelude.{
  ℕ, zero, suc, ◌+◌, ◌-◌, ◌<◌, ◌≤◌, ◌≡◌, refl, sym, ap, subst, ◌∙◌, Option, some, List, [], ◌∷◌,
  String, Memᴰ, length, arith, ◌>>=◌, inr, All,
}
use azkaban_private.Layout.Dummies.{
  Spot, real, dummy, Drawing, attach, new_dummy, chain, add_edge, add_edges,
}
use azkaban_private.Layout.Dummies.Adjacent.{
  Mem-push_at, level_of, Adjacent, IsLayered, Extends, Extends-self, Extends-trans, attach-Extends,
  attach-IsLayered, new_dummy-level, new_dummy-Extends, new_dummy-IsLayered,
}

-- So many dummies in the order in which they are made.
abbrev pub dummies_from : ℕ → ℕ → List Spot
dummies_from first zero = []
dummies_from first (suc n) = dummy first ∷ dummies_from (suc first) n

-- From `a` through the guides to `b`, each is in the `in` of the next.
abbrev pub Threads : Drawing → Spot → List Spot → Spot → Type 0
Threads d a [] b = Memᴰ a (d.ins b)
Threads d a (g ∷ guides) b = Memᴰ a (d.ins g) × Threads d g guides b

-- The same up to the last of the guides.
abbrev Reaches : Drawing → Spot → List Spot → Spot → Type 0
Reaches d a [] z = a ≡ z
Reaches d a (g ∷ guides) z = Memᴰ a (d.ins g) × Reaches d g guides z

attach-Mem : (a b : Spot) (d : Drawing) → Memᴰ a ((attach a b d).ins b)
attach-Mem a b d = (Mem-push_at a b a b d.ins).1 (inr (refl, refl))

-- The layers below `top` are there.
abbrev pub HasLayers : ℕ → Drawing → Type 0
HasLayers top d = (j : ℕ) → j < top → (layer : List Spot) × (d.layers j ≡ some layer)

module _ (node_map : String → Option ℕ) where
  Threads-Extends :
      (d d' : Drawing) (a : Spot) (guides : List Spot) (b : Spot)
      → Extends node_map d d'
      → Threads d a guides b
      → Threads d' a guides b
  Threads-Extends d d' a [] b x m = x.ins a b m
  Threads-Extends d d' a (g ∷ guides) b x (m, rest) =
      (x.ins a g m, Threads-Extends d d' g guides b x rest)

  Reaches-Threads :
      (d d' : Drawing) (a : Spot) (guides : List Spot) (z b : Spot)
      → Extends node_map d d'
      → Reaches d a guides z
      → Memᴰ z (d'.ins b)
      → Threads d' a guides b
  Reaches-Threads d d' a [] z b x e m = subst (λ s. Memᴰ s (d'.ins b)) (sym e) m
  Reaches-Threads d d' a (g ∷ guides) z b x (near, rest) m =
      (x.ins a g near, Reaches-Threads d d' g guides z b x rest m)

  HasLayers-Extends :
      (top : ℕ) (d d' : Drawing) → Extends node_map d d' → HasLayers top d → HasLayers top d'
  HasLayers-Extends top d d' x has j low = let (layer, e) = has j low in x.layers j layer e

  chain_lem :
      (n j top : ℕ) (last : Spot) (d : Drawing)
      → IsLayered node_map d
      → level_of node_map d last ≡ some j
      → HasLayers top d
      → suc j + n ≤ top
      → (z : Spot) × (guides : List Spot) × (d' : Drawing) × (chain n (suc j) last d
          ≡ some (z, (guides, d')))
        × IsLayered node_map d'
        × Extends node_map d d'
        × (level_of node_map d' z ≡ some (j + n))
        × Reaches d' last guides z
        × (length guides ≡ n)
        × (guides ≡ dummies_from d.made n)
        × (d'.made ≡ d.made + n)
  unfolding chain
  chain_lem zero j top last d i level has low = (
    last,
    [],
    d,
    refl,
    i,
    Extends-self node_map d,
    level ∙ ap some (ground arith),
    refl,
    refl,
    refl,
    omega arith,
  )
  chain_lem (suc n) j top last d i level has low =
      let (layer, e) = has (suc j) (omega arith) in
      let next = dummy d.made in
      let made = new_dummy (suc j) layer d in
      let joined = attach last next made in
      let extends = new_dummy-Extends node_map (suc j) layer d in
      let is_made = new_dummy-level node_map (suc j) layer d in
      let near : Adjacent node_map made last next = (j, extends.levels last j level, is_made) in
      let both =
        Extends-trans node_map d made joined extends (attach-Extends node_map last next made) in
      let (z, guides, d', ran, i', x, level', reaches, count, numbered, made_after) =
        chain_lem n (suc j) top next joined
          (attach-IsLayered node_map last next made
            (new_dummy-IsLayered node_map (suc j) layer d i e) near)
          ((attach-Extends node_map last next made).levels next (suc j) is_made)
          (HasLayers-Extends top d joined both has) (omega arith) in
      (
        z,
        next ∷ guides,
        d',
        rw (e, chain) (ap (λ o. o >>= λ r. some (r.0, (next ∷ r.1.0, r.1.1))) ran),
        i',
        Extends-trans node_map d joined d' both x,
        level' ∙ ap some (omega arith),
        (x.ins last next (attach-Mem last next made), reaches),
        ap suc count,
        ap (λ l. next ∷ l) numbered,
        omega (arith, made_after),
      )

  -- The edge goes down from a node of the flow to one on a layer up to `top`.
  pub record IsEdge (top : ℕ) (edge : String × String) : Type 0 where
    pub from_level : ℕ
    pub to_level : ℕ
    pub from : node_map edge.0 ≡ some from_level
    pub to : node_map edge.1 ≡ some to_level
    pub down : from_level < to_level
    pub low : to_level ≤ top

  -- The guides of an edge are the dummies from the first on, and lead from one end to the other, one
  -- on each level between.
  pub record IsThread (d : Drawing) (first : ℕ) (edge : String × String) (guides : List Spot)
      : Type 0 where
    pub threads : Threads d (real edge.0) guides (real edge.1)
    pub dummies : guides ≡ dummies_from first (length guides)
    pub levels :
        (s e : ℕ) → node_map edge.0 ≡ some s → node_map edge.1 ≡ some e → length guides + s + 1 ≡ e

  add_edge_lem :
      (top : ℕ) (edge : String × String) (d : Drawing)
      → IsLayered node_map d
      → HasLayers top d
      → IsEdge top edge
      → (guides : List Spot) × (d' : Drawing) × (add_edge node_map edge.0 edge.1 d
          ≡ some (guides, d'))
        × IsLayered node_map d'
        × Extends node_map d d'
        × IsThread d' d.made edge guides
        × (d'.made ≡ d.made + length guides)
  unfolding add_edge
  add_edge_lem top edge d i has is_edge =
      let s = is_edge.from_level in
      let e = is_edge.to_level in
      let down = is_edge.down in
      let low = is_edge.low in
      let (z, guides, d', ran, i', x, level, reaches, count, numbered, made_after) =
        chain_lem (e - suc s) s top (real edge.0) d i is_edge.from has (omega arith) in
      let target = real edge.1 in
      let last = attach z target d' in
      let both = Extends-trans node_map d d' last x (attach-Extends node_map z target d') in
      (
        guides,
        last,
        rw (is_edge.from, is_edge.to, add_edge)
            (ap (λ o. o >>= λ r. some (r.1.0, attach r.0 target r.1.1)) ran),
        attach-IsLayered node_map z target d' i'
            (s + (e - suc s), level, is_edge.to ∙ ap some (omega arith)),
        both,
        record {
          threads =
              Reaches-Threads d' last (real edge.0) guides z target
                (attach-Extends node_map z target d') reaches (attach-Mem z target d');
          dummies = numbered ∙ ap (dummies_from d.made) (sym count);
          levels = λ s' e' from to.
              let one : some s' ≡ some s = sym from ∙ is_edge.from in
              let two : some e' ≡ some e = sym to ∙ is_edge.to in
              let same_s : s' ≡ s = cc in let same_e : e' ≡ e = cc in omega arith;
        },
        omega (arith, made_after, count),
      )

  -- Of the edges and their guides in turn, each with the dummies behind those of the edge before.
  abbrev pub AllThreads : Drawing → ℕ → List (String × String) → List (List Spot) → Type 0
  AllThreads d first [] [] = d.made ≡ first
  AllThreads d first (edge ∷ edges) (guides ∷ all) =
      IsThread d first edge guides × AllThreads d (first + length guides) edges all
  AllThreads d first _ _ = ⊥

  IsThread-Extends :
      (d d' : Drawing) (first : ℕ) (edge : String × String) (guides : List Spot)
      → Extends node_map d d'
      → IsThread d first edge guides
      → IsThread d' first edge guides
  IsThread-Extends d d' first edge guides x t = record {
    dummies = t.dummies;
    threads = Threads-Extends d d' (real edge.0) guides (real edge.1) x t.threads;
    levels = t.levels;
  }

  add_edges-Extends :
      (top : ℕ) (edges : List (String × String)) (d : Drawing)
      → IsLayered node_map d
      → HasLayers top d
      → All (IsEdge top) edges
      → (all : List (List Spot)) × (d' : Drawing) × (add_edges node_map edges d ≡ some (all, d'))
        × IsLayered node_map d'
        × Extends node_map d d'
        × AllThreads d' d.made edges all
  unfolding add_edges
  add_edges-Extends top [] d i has are_edges = ([], d, refl, i, Extends-self node_map d, refl)
  add_edges-Extends top (edge ∷ edges) d i has (is_edge, are_edges) =
      let (guides, d', ran, i', x, thread, made_after) = add_edge_lem top edge d i has is_edge in
      let (all, last, ran', i'', x', threads) =
        add_edges-Extends top edges d' i' (HasLayers-Extends top d d' x has) are_edges in
      (
        guides ∷ all,
        last,
        ap (λ o. o >>= λ r. add_edges node_map edges r.1 >>= λ q. some (r.0 ∷ q.0, q.1)) ran
            ∙ ap (λ o. o >>= λ q. some (guides ∷ q.0, q.1)) ran',
        i'',
        Extends-trans node_map d d' last x x',
        (
          IsThread-Extends d' last d.made edge guides x' thread,
          subst (λ first. AllThreads last first edges all) made_after threads,
        ),
      )

  -- What `prepareLayout` leaves: no node has entries in its `in` or `out` yet, and no dummy is made.
  abbrev pub IsNew : Drawing → Type 0
  IsNew d = (d.made ≡ 0) × ((s : Spot) → (d.ins s ≡ []) × (d.outs s ≡ []))

  IsNew-IsLayered : (d : Drawing) → IsNew d → IsLayered node_map d
  IsNew-IsLayered d (none_made, new) = record {
    adjacent = λ a b m. absurd (Memᴰ.not-nil (subst (Memᴰ a) (new b).0 m));
    mirrored = λ a b. (
      λ m. absurd (Memᴰ.not-nil (subst (Memᴰ a) (new b).0 m)),
      λ m. absurd (Memᴰ.not-nil (subst (Memᴰ b) (new a).1 m)),
    );
    listed = λ n low. absurd (omega arith);
  }

  -- If every edge goes down, between layers that are there, then the loop over the edges ends without
  -- a TypeError; each edge is then a path through its guides, which are dummies of its own, one on
  -- every level between its ends, every link joins nodes of neighbouring levels and is in both
  -- arrays, and each dummy belongs to one edge and is in the layer of its level.
  pub add_edges_lem :
      (top : ℕ) (edges : List (String × String)) (d : Drawing)
      → IsNew d
      → HasLayers top d
      → All (IsEdge top) edges
      → (all : List (List Spot)) × (d' : Drawing) × (add_edges node_map edges d ≡ some (all, d'))
        × AllThreads d' 0 edges all
        × IsLayered node_map d'
  add_edges_lem top edges d new has are_edges =
      let (all, d', ran, i, x, threads) =
        add_edges-Extends top edges d (IsNew-IsLayered d new) has are_edges in
      (all, d', ran, subst (λ first. AllThreads d' first edges all) new.0 threads, i)
