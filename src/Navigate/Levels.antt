-- ===== src/Navigate/Levels.antt =====
-- Which level calculateZoomLevel of util/svg-navigate.js finds for a scale.
use azkaban_private.Prelude.{
  ℕ, zero, suc, ◌+◌, ◌-◌, ◌<◌, ◌≡◌, refl, sym, subst, ap, ◌∙◌, Bool-cases, true, false, not, ◌⊎◌,
  inl, inr, List, [], ◌∷◌, All, length, arith,
}
use native.Mathlib.Decide.{dec_lt}
use azkaban_private.Navigate.{Numbers, get_or, scan_levels, calculate_zoom_level}

-- Numbers that are not NaN are ordered.
pub record IsOrder {N : Type 0} (engine : Numbers N) (IsNumber : N → Type 0) : Type 0 where
  pub lt_iff : (a b : N) → IsNumber a → IsNumber b → engine.lt a b ≡ not (engine.le b a)
  pub le_of_lt : (a b : N) → IsNumber a → IsNumber b → engine.lt a b ≡ true → engine.le a b ≡ true

module _ {N : Type 0} (engine : Numbers N) where
  abbrev pub level_at : List N → ℕ → N
  level_at levels i = get_or engine.nan levels i

  -- The level at an index is the last one for the scale: the scale is not below it, and below the
  -- next.
  abbrev pub IsBetween : N → List N → ℕ → Type 0
  IsBetween scale levels i =
      (engine.lt scale (level_at levels i) ≡ false)
      × (engine.lt scale (level_at levels (suc i)) ≡ true)

  -- What calculateZoomLevel finds.
  abbrev pub IsLevelOf : N → List N → ℕ → Type 0
  IsLevelOf scale levels i =
      ((i ≡ length levels - 1) × (engine.le (level_at levels i) scale ≡ true))
      ⊎ (((i ≡ 0) × (engine.le scale (level_at levels 0) ≡ true)) ⊎ IsBetween scale levels i)

  abbrev last_level : N → List N → N
  last_level level [] = level
  last_level level (next ∷ levels) = last_level next levels

  last_level_lem :
      (level : N) (levels : List N)
      → level_at (level ∷ levels) (length (level ∷ levels) - 1) ≡ last_level level levels
  last_level_lem level [] = refl
  last_level_lem level (next ∷ levels) =
      let e : length (level ∷ next ∷ levels) - 1 ≡ suc (length (next ∷ levels) - 1) = omega arith in
      rw e (last_level_lem next levels)

  -- The scan behind a level that is not above the scale.
  scan_levels_lem :
      (scale before : N) (levels : List N) (i : ℕ)
      → engine.lt scale before ≡ false
      → engine.lt scale (last_level before levels) ≡ true
      → (k : ℕ) × (scan_levels engine scale levels (suc i) ≡ i + k)
        × (k < length levels)
        × IsBetween scale (before ∷ levels) k
  unfolding scan_levels
  scan_levels_lem scale before [] i above below = cc
  scan_levels_lem scale before (level ∷ levels) i above below =
      elim (Bool-cases (engine.lt scale level)) [
        | inl found ↦ (0, rw found (omega arith), omega arith, (above, found))
        | inr more ↦
            let (k, e, low, between) = scan_levels_lem scale level levels (suc i) more below in
            (suc k, rw more (omega (arith, e)), omega arith, between)
      ]

  module _ {IsNumber : N → Type 0} (order : IsOrder engine IsNumber) where
    last_level-IsNumber :
        (level : N) (levels : List N)
        → IsNumber level
        → All IsNumber levels
        → IsNumber (last_level level levels)
    last_level-IsNumber level [] first all = first
    last_level-IsNumber level (next ∷ levels) first (second, all) =
        last_level-IsNumber next levels second all

    pub find_level :
        (scale level : N) (levels : List N)
        → IsNumber scale
        → IsNumber level
        → All IsNumber levels
        → (i : ℕ) × (calculate_zoom_level engine scale (level ∷ levels) ≡ i)
          × (i < length (level ∷ levels))
          × IsLevelOf scale (level ∷ levels) i
    unfolding calculate_zoom_level scan_levels
    find_level scale level levels number first all =
        let top = length (level ∷ levels) - 1 in
        elim (Bool-cases (engine.le (level_at (level ∷ levels) top) scale)) [
          | inl greatest ↦
              (top, rw (calculate_zoom_level, greatest) refl, omega arith, inl (refl, greatest))
          | inr below ↦ elim (Bool-cases (engine.le scale level)) [
            | inl least ↦ (
              0,
              rw (calculate_zoom_level, below, least) refl,
              omega arith,
              inr (inl (refl, least)),
            )
            | inr more ↦
                let not_first : engine.lt scale level ≡ false =
                  elim (Bool-cases (engine.lt scale level)) [
                    | inl less ↦ cc (order.le_of_lt scale level number first less)
                    | inr not_less ↦ not_less
                  ] in
                let is_last = last_level_lem level levels in
                let not_last : engine.lt scale (last_level level levels) ≡ true =
                  order.lt_iff scale (last_level level levels) number
                    (last_level-IsNumber level levels first all)
                  ∙ ap not (ap (λ (l : N). engine.le l scale) (sym is_last) ∙ below) in
                let (k, e, low, between) =
                  scan_levels_lem scale level levels 0 not_first not_last in
                (
                  k,
                  rw (calculate_zoom_level, below, more, not_first) (omega (arith, e)),
                  omega arith,
                  inr (inr between),
                )
          ]
        ]

    -- Each level is below those behind it.
    abbrev pub IsAscending : List N → Type 0
    IsAscending [] = Unit
    IsAscending (level ∷ levels) =
        All (λ later. engine.lt level later ≡ true) levels × IsAscending levels

    level_at-All :
        (P : N → Type 0) (levels : List N) (i : ℕ)
        → All P levels
        → i < length levels
        → P (level_at levels i)
    level_at-All P [] i all low = absurd (omega arith)
    level_at-All P (level ∷ levels) zero (first, all) low = first
    level_at-All P (level ∷ levels) (suc i) (first, all) low =
        level_at-All P levels i all (omega arith)

    ascending :
        (levels : List N) (i j : ℕ)
        → IsAscending levels
        → i < j
        → j < length levels
        → engine.lt (level_at levels i) (level_at levels j) ≡ true
    ascending [] i j up less low = absurd (omega arith)
    ascending (level ∷ levels) i zero up less low = absurd (omega arith)
    ascending (level ∷ levels) zero (suc j) (first, up) less low =
        level_at-All (λ later. engine.lt level later ≡ true) levels j first (omega arith)
    ascending (level ∷ levels) (suc i) (suc j) (first, up) less low =
        ascending levels i j up (omega arith) (omega arith)

    not_le : (a b : N) → IsNumber a → IsNumber b → engine.lt a b ≡ true → engine.le b a ≡ false
    not_le a b number number' less = ground (arith, order.lt_iff a b number number')

    not_lt : (a b : N) → IsNumber a → IsNumber b → engine.lt a b ≡ true → engine.lt b a ≡ false
    not_lt a b number number' less =
        ground (arith, order.lt_iff b a number' number, order.le_of_lt a b number number' less)

    module _ (levels : List N) (numbers : All IsNumber levels) (up : IsAscending levels) where
      not_above :
          (i j : ℕ)
          → i < j
          → j < length levels
          → (engine.lt (level_at levels i) (level_at levels j) ≡ true)
            × (engine.le (level_at levels j) (level_at levels i) ≡ false)
            × (engine.lt (level_at levels j) (level_at levels i) ≡ false)
      not_above i j less low =
          let less' = ascending levels i j up less low in
          let number = level_at-All IsNumber levels i numbers (omega arith) in
          let number' = level_at-All IsNumber levels j numbers low in
          (less', not_le _ _ number number' less', not_lt _ _ number number' less')

      level_unique :
          (i k : ℕ)
          → i < length levels
          → k < length levels
          → IsLevelOf (level_at levels i) levels k
          → k ≡ i
      level_unique i k low low' found = elim (dec_lt i k) [
        | yes less ↦
            let (lt, le, _) = not_above i k less low' in
            elim found [
              | inl (_, greatest) ↦ cc
              | inr (inl (first, _)) ↦ absurd (omega arith)
              | inr (inr (above, _)) ↦ cc
            ]
        | no not_less ↦ elim (dec_lt k i) [
          | no same ↦ omega arith
          | yes more ↦ elim found [
            | inl (last, _) ↦ absurd (omega arith)
            | inr (inl (first, least)) ↦ let (_, le, _) = not_above 0 i (omega arith) low in cc
            | inr (inr (_, below)) ↦ elim (dec_lt (suc k) i) [
              | yes far ↦ let (_, _, no_lt) = not_above (suc k) i far low in cc
              | no near ↦
                  let next : suc k ≡ i = omega arith in
                  let number = level_at-All IsNumber levels i numbers low in
                  let self : engine.lt (level_at levels i) (level_at levels i) ≡ true =
                    subst (λ (n : ℕ). engine.lt (level_at levels i) (level_at levels n) ≡ true) next
                      below in
                  cc (not_lt _ _ number number self)
            ]
          ]
        ]
      ]

    -- In a table of numbers that ascends, calculateZoomLevel finds for a number a level of the table:
    -- the last one that the scale is not below, or the first or last one for a scale outside the
    -- table; and it finds the place of each level.
    pub calculate_zoom_level_lem :
        (scale level : N) (levels : List N) (i : ℕ)
        → IsNumber scale
        → IsNumber level
        → All IsNumber levels
        → IsAscending (level ∷ levels)
        → i < length (level ∷ levels)
        → let found = calculate_zoom_level engine scale (level ∷ levels) in
          (found < length (level ∷ levels))
          × IsLevelOf scale (level ∷ levels) found
          × (calculate_zoom_level engine (level_at (level ∷ levels) i) (level ∷ levels) ≡ i)
    calculate_zoom_level_lem scale level levels i number first all up low =
        let all_levels = level ∷ levels in
        let (k, e, within, is_level) = find_level scale level levels number first all in
        (
          subst (λ (n : ℕ). n < length all_levels) (sym e) within,
          subst (λ (n : ℕ). IsLevelOf scale all_levels n) (sym e) is_level,
          let at_level = level_at-All IsNumber all_levels i (first, all) low in
              let (k', e', within', is_level') =
                find_level (level_at all_levels i) level levels at_level first all in
              e' ∙ level_unique all_levels (first, all) up i k' low within' is_level',
        )
