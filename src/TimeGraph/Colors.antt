-- ===== src/TimeGraph/Colors.antt =====
-- Which colour view/time-graph.js gives to a point.
use azkaban_private.Prelude.{
  ℕ, zero, suc, ◌+◌, ◌<◌, ◌==◌, ◌≡◌, ◌≢◌, refl, sym, ◌∙◌, if◌then◌else◌, Bool, Bool-cases,
  Option-cases, length, subst, true, false, ◌&&◌, ◌||◌, Option, none, some, inl, inr, List, [], ◌∷◌,
  arith,
}
use azkaban_private.TimeGraph.{
  Run, Plot, get_elem?, is_missing, is_unset, sample_of, add_sample, empty_plot, drawn, collect,
  render, line_color, status_color,
}

module _ (now : ℕ → ℕ) where
  -- The time at which the entry of an index is drawn.
  abbrev pub time_at : ℕ → Run → ℕ
  time_at i run = (sample_of (now i) run.start_time run.end_time).time

  abbrev pub is_waiting : Run → Bool
  is_waiting run = is_unset run.start_time && is_unset run.end_time

  -- The last entry that is drawn at a time, counted from an index.
  last_at : ℕ → List Run → ℕ → Option ℕ → Option ℕ
  last_at i [] time found = found
  last_at i (run ∷ runs) time found =
      last_at (suc i) runs time
        (if is_waiting run then found else if time == time_at i run then some i else found)

  collect-last_at :
      (i : ℕ) (runs : List Run) (plot plot' : Plot) (time : ℕ)
      → collect now i runs plot ≡ some plot'
      → plot'.index_map time ≡ last_at i runs time (plot.index_map time)
  unfolding collect last_at
  collect-last_at i [] plot plot' time e = cc
  collect-last_at i (run ∷ runs) plot plot' time e =
      elim (Bool-cases (is_missing run.start_time || is_missing run.end_time)) [
        | inl gone ↦ cc (rw gone at e)
        | inr there ↦
            let sample = sample_of (now i) run.start_time run.end_time in
            elim (Bool-cases (is_waiting run)) [
              | inl waits ↦
                  rw waits (collect-last_at (suc i) runs plot plot' time (rw (there, waits) at e))
              | inr known ↦ rw known (
                  collect-last_at (suc i) runs (add_sample i sample plot) plot' time
                    (rw (there, known) at e))
            ]
      ]

  -- No later entry is drawn at the time of the one at an index.
  abbrev pub IsLastAt : ℕ → List Run → ℕ → ℕ → Type 0
  IsLastAt base runs j time =
      (k : ℕ) (other : Run)
      → j < k
      → get_elem? runs k ≡ some other
      → is_waiting other ≡ false
      → time ≢ time_at (base + k) other

  last_at-none :
      (i : ℕ) (runs : List Run) (time : ℕ) (found : Option ℕ)
      → ((k : ℕ) (other : Run)
          → get_elem? runs k ≡ some other
          → is_waiting other ≡ false
          → time ≢ time_at (i + k) other)
      → last_at i runs time found ≡ found
  unfolding last_at
  last_at-none i [] time found apart = refl
  last_at-none i (run ∷ runs) time found apart =
      let rest : (k : ℕ) (other : Run)
          → get_elem? runs k ≡ some other
          → is_waiting other ≡ false
          → time ≢ time_at (suc i + k) other =
        λ k other e known.
          subst (λ (n : ℕ). time ≢ time_at n other) (omega arith) (apart (suc k) other e known) in
      elim (Bool-cases (is_waiting run)) [
        | inl waits ↦ rw waits (last_at-none (suc i) runs time found rest)
        | inr known ↦
            let z : i + 0 ≡ i = omega arith in
            let other : (time == time_at i run) ≡ false =
              ground
                (arith, z, subst (λ (n : ℕ). time ≢ time_at n run) z (apart 0 run refl known)) in
            rw (known, other) (last_at-none (suc i) runs time found rest)
      ]

  last_at-some :
      (i j : ℕ) (runs : List Run) (run : Run) (found : Option ℕ)
      → get_elem? runs j ≡ some run
      → is_waiting run ≡ false
      → IsLastAt i runs j (time_at (i + j) run)
      → last_at i runs (time_at (i + j) run) found ≡ some (i + j)
  unfolding last_at
  last_at-some i j [] run found e known last = cc
  last_at-some i zero (r ∷ runs) run found e known last =
      let z : i + 0 ≡ i = omega arith in
      let same : r ≡ run = cc in
      let hit : (time_at i run == time_at i run) ≡ true = ground arith in
      rw (z, same, known, hit)
        (last_at-none (suc i) runs (time_at i run) (some i) (λ k other e' known'.
          subst (λ (n : ℕ). time_at i run ≢ time_at n other) (omega arith)
            (subst (λ (n : ℕ). time_at n run ≢ time_at (i + suc k) other) z
              (last (suc k) other (omega arith) e' known'))))
  last_at-some i (suc j) (r ∷ runs) run found e known last =
      let z : i + suc j ≡ suc i + j = omega arith in
      rw z (
        last_at-some (suc i) j runs run _ e known (λ k other later e' known'.
          subst (λ (n : ℕ). time_at (suc i + j) run ≢ time_at n other) (omega arith)
            (subst (λ (n : ℕ). time_at n run ≢ time_at (i + suc k) other) z
              (last (suc k) other (omega arith) e' known'))))

  -- If a series is drawn, then the point of an entry that has not both times unset has the colour of
  -- its status, if no later entry of the series has a point at the same time.
  pub line_color-render :
      (series : List Run) (plot : Plot) (i : ℕ) (run : Run)
      → render now (some series) ≡ drawn plot
      → get_elem? series i ≡ some run
      → is_waiting run ≡ false
      → ((k : ℕ) (other : Run)
          → i < k
          → get_elem? series k ≡ some other
          → is_waiting other ≡ false
          → time_at i run ≢ time_at k other)
      → line_color series plot true (time_at i run) ≡ some (status_color run.status)
  unfolding line_color render
  line_color-render series plot i run shown here known last =
      elim (Option-cases (collect now 0 series empty_plot)) [
        | inl none_left ↦ cc (rw (render, none_left) at shown)
        | inr (plot', e) ↦ elim (Bool-cases (length plot'.samples == 0)) [
          | inl empty ↦ cc (rw (render, e, empty) at shown)
          | inr many ↦
              let z : 0 + i ≡ i = omega arith in
              let same : plot' ≡ plot = cc (rw (render, e, many) at shown) in
              let found : plot'.index_map (time_at i run) ≡ some i =
                collect-last_at 0 series empty_plot plot' (time_at i run) e
                ∙ rw z at (
                    last_at-some 0 i series run none here known (λ k other later e' known'.
                      subst (λ (n : ℕ). time_at n run ≢ time_at (0 + k) other) (sym z)
                        (subst (λ (n : ℕ). time_at i run ≢ time_at n other) (omega arith)
                          (last k other later e' known')))) in
              rw (← same, line_color, found, here) refl
        ]
      ]
