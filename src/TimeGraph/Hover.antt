-- ===== src/TimeGraph/Hover.antt =====
-- Which status view/time-graph.js shows for a point.
use azkaban_private.Prelude.{
  ℕ, zero, suc, ◌+◌, ◌-◌, ◌<◌, ◌==◌, ◌≡◌, refl, sym, ap, ◌∙◌, leb, false, ◌&&◌, ◌||◌, Option, some,
  List, [], ◌∷◌, ◌++◌, All, length, length-append, arith,
}
use mathlib.Core.List.{reverse, reverse-cons, append_assoc, append-nil}
use azkaban_private.Flow.{unset}
use azkaban_private.TimeGraph.{
  Run, Sample, Plot, get_elem?, is_missing, is_unset, sample_of, add_sample, empty_plot, drawn,
  collect, render, hover_status,
}

-- It has not started: no point stands for it.
abbrev pub IsWaiting : Run → Type 0
IsWaiting run = (run.start_time ≡ unset) × (run.end_time ≡ unset)

-- It has both times, of which one is known.
abbrev pub IsShown : Run → Type 0
IsShown run =
    ((is_missing run.start_time || is_missing run.end_time) ≡ false)
    × ((is_unset run.start_time && is_unset run.end_time) ≡ false)

get_elem?-append :
    {A : Type 0}
    → (xs ys : List A) (i : ℕ) → i < length xs
    → get_elem? (xs ++ ys) i ≡ get_elem? xs i
get_elem?-append [] ys i low = absurd (omega arith)
get_elem?-append (x ∷ xs) ys zero low = refl
get_elem?-append (x ∷ xs) ys (suc i) low = get_elem?-append xs ys i (omega arith)

get_elem?-low :
    {A : Type 0} → (xs : List A) (i : ℕ) (x : A) → get_elem? xs i ≡ some x → i < length xs
get_elem?-low [] i x e = cc
get_elem?-low (y ∷ xs) zero x e = omega arith
get_elem?-low (y ∷ xs) (suc i) x e = omega (arith, get_elem?-low xs i x e)

get_elem?-last :
    {A : Type 0} → (xs : List A) (x : A) → get_elem? (xs ++ x ∷ []) (length xs) ≡ some x
get_elem?-last [] x = refl
get_elem?-last (y ∷ xs) x = get_elem?-last xs x

length-reverse : {A : Type 0} → (xs : List A) → length (reverse xs) ≡ length xs
length-reverse [] = refl
length-reverse (x ∷ xs) =
    rw (reverse-cons x xs, length-append (reverse xs) (x ∷ [])) (omega (arith, length-reverse xs))

get_elem?-reverse :
    {A : Type 0}
    → (xs : List A) (i : ℕ) → i < length xs
    → get_elem? (reverse xs) (length xs - i - 1) ≡ get_elem? xs i
get_elem?-reverse [] i low = absurd (omega arith)
get_elem?-reverse (x ∷ xs) zero low =
    let e : length (x ∷ xs) - 0 - 1 ≡ length (reverse xs) = omega (arith, length-reverse xs) in
    rw (e, reverse-cons x xs) (get_elem?-last (reverse xs) x)
get_elem?-reverse (x ∷ xs) (suc i) low =
    let e : length (x ∷ xs) - suc i - 1 ≡ length xs - i - 1 = omega arith in
    rw (e, reverse-cons x xs)
      (get_elem?-append (reverse xs) (x ∷ []) (length xs - i - 1) (omega (arith, length-reverse xs))
        ∙ get_elem?-reverse xs i (omega arith))

module _ (now : ℕ → ℕ) where
  -- The points of entries that are all shown.
  abbrev pub samples_of : ℕ → List Run → List Sample
  samples_of i [] = []
  samples_of i (run ∷ runs) =
      sample_of (now i) run.start_time run.end_time ∷ samples_of (suc i) runs

  collect-waiting :
      (i : ℕ) (waiting series : List Run) (plot : Plot)
      → All IsWaiting waiting
      → collect now i (waiting ++ series) plot ≡ collect now (i + length waiting) series plot
  unfolding collect
  collect-waiting i [] series plot all = ap (λ (n : ℕ). collect now n series plot) (omega arith)
  collect-waiting i (run ∷ waiting) series plot ((start, end), all) =
      rw (start, end)
        (collect-waiting (suc i) waiting series plot all
          ∙ ap (λ (n : ℕ). collect now n series plot) (omega arith))

  collect-shown :
      (i : ℕ) (shown : List Run) (plot : Plot)
      → All IsShown shown
      → (index_map : (ℕ → Option ℕ)) × (collect now i shown plot
          ≡ some (record { samples = plot.samples ++ samples_of i shown; index_map = index_map }))
  unfolding collect
  collect-shown i [] plot all = (
    plot.index_map,
    ap (λ (l : List Sample). some (record { samples = l; index_map = plot.index_map }))
        (sym (append-nil plot.samples)),
  )
  collect-shown i (run ∷ shown) plot ((there, known), all) =
      let sample = sample_of (now i) run.start_time run.end_time in
      let (index_map, e) = collect-shown (suc i) shown (add_sample i sample plot) all in
      (
        index_map,
        rw (there, known)
            (e
              ∙ ap (λ (l : List Sample). some (record { samples = l; index_map = index_map }))
                  (append_assoc plot.samples (sample ∷ []) (samples_of (suc i) shown))),
      )

  length-samples_of : (i : ℕ) (runs : List Run) → length (samples_of i runs) ≡ length runs
  length-samples_of i [] = refl
  length-samples_of i (run ∷ runs) = omega (arith, length-samples_of (suc i) runs)

  get_elem?-samples_of :
      (i j : ℕ) (runs : List Run) (run : Run)
      → get_elem? runs j ≡ some run
      → get_elem? (samples_of i runs) j ≡ some (sample_of (now (i + j)) run.start_time run.end_time)
  get_elem?-samples_of i j [] run e = cc
  get_elem?-samples_of i zero (r ∷ runs) run e = let z : i + 0 ≡ i = omega arith in rw z (cc)
  get_elem?-samples_of i (suc j) (r ∷ runs) run e =
      let z : i + suc j ≡ suc i + j = omega arith in
      rw z (get_elem?-samples_of (suc i) j runs run e)

  -- Of a series whose first entries have not started and whose others are shown, render draws a
  -- graph with a point for each of the others. In the opposite order, as Morris holds them when the
  -- latest comes first, the status that is shown for the point of an entry is that of the entry
  -- which stands at its place counted with those that have not started: its own only if there are
  -- none of these.
  pub render-hover_status :
      (waiting shown : List Run) (j : ℕ) (run other : Run)
      → All IsWaiting waiting
      → All IsShown shown
      → get_elem? shown j ≡ some run
      → get_elem? (waiting ++ shown) j ≡ some other
      → (plot : Plot) × (render now (some (waiting ++ shown)) ≡ drawn plot)
        × (length plot.samples ≡ length shown)
        × (get_elem? (reverse plot.samples) (length shown - j - 1)
            ≡ some (sample_of (now (length waiting + j)) run.start_time run.end_time))
        × (hover_status (waiting ++ shown) (length shown) (length shown - j - 1)
            ≡ some other.status)
  unfolding render hover_status
  render-hover_status waiting shown j run other wait show here there =
      let (index_map, e) = collect-shown (length waiting) shown empty_plot show in
      let samples = samples_of (length waiting) shown in
      let plot : Plot = record { samples = samples; index_map = index_map } in
      let n = length-samples_of (length waiting) shown in
      let low = get_elem?-low shown j run here in
      let all : collect now 0 (waiting ++ shown) empty_plot ≡ some plot =
        collect-waiting 0 waiting shown empty_plot wait
        ∙ ap (λ (n : ℕ). collect now n shown empty_plot) (omega arith)
        ∙ e in
      let some_drawn : (length samples == 0) ≡ false = ground arith in
      let in_range : leb (length shown) (length shown - j - 1) ≡ false = ground arith in
      let back : length shown - (length shown - j - 1) - 1 ≡ j = omega arith in
      (
        plot,
        rw (render, all, some_drawn) refl,
        n,
        rw (← n) (
            get_elem?-reverse samples j (omega arith)
            ∙ get_elem?-samples_of (length waiting) j shown run here),
        rw (in_range, back, there) refl,
      )
