-- ===== src/Navigate/Session.antt =====
-- The events that reach a graph of util/svg-navigate.js, in any order.
use azkaban_private.Prelude.{
  ℕ, zero, suc, ◌<◌, ◌≡◌, refl, if◌then◌else◌, Bool, Bool-cases, true, false, ◌⊎◌, inl, inr, Option,
  none, some, List, [], ◌∷◌, All, length, ltb, arith,
}
use azkaban_private.Prelude.Int.{ℤ, pos, negsuc}
use azkaban_private.Navigate.{
  Numbers, Settings, Animation, Target, Goal, get_or, bound_zoom_level, zoom_levels_from,
  zoom_levels, calculate_zoom_level, init, set_mouse, mouse_down, mouse_up, mouse_out, mouse_move,
  translate_delta_graph, scale_graph, mouse_scrolled, animate_tick, animate_transform, box_scale,
  transform_to_box, fire, timer_fires,
}
use azkaban_private.Navigate.Levels.{IsOrder, find_level}

-- An event, with what the handler reads of it: `boxed` has the size of the parent and the two
-- times that the clock gives.
pub data Event (N : Type 0) : Type 0 where
  pressed : ℕ → N → N → Event N
  released : ℕ → N → N → Event N
  left : N → N → Event N
  moved : N → N → Event N
  scrolled : ℤ → ℤ → (N × N) → (N × N) → Event N
  boxed : N → N → Goal N → ℕ → ℕ → Event N
  fired : ℕ → Event N

module _ {N : Type 0} (engine : Numbers N) (settings : Settings N) where
  unfoldable pub act : Event N → Target N → Target N
  act (pressed button x y) t = mouse_down engine button x y t
  act (released button x y) t = mouse_up engine button x y t
  act (left x y) t = mouse_out engine x y t
  act (moved x y) t = mouse_move engine x y t
  act (scrolled wheel_delta detail offset layer) t =
      mouse_scrolled engine settings wheel_delta detail offset layer t
  act (boxed div_width div_height goal start_time time) t =
      transform_to_box engine settings div_width div_height goal start_time time t
  act (fired time) t = timer_fires engine settings time t

  unfoldable pub act_all : List (Event N) → Target N → Target N
  act_all [] t = t
  act_all (event ∷ events) t = act_all events (act event t)

  -- The level of an animation is in the table.
  abbrev pub IsLow : Option (Animation N) → Type 0
  IsLow none = Unit
  IsLow (some a) = a.to_scale_level < settings.zoom_num_levels

  -- The levels are in the table, the scale is that of the level whenever no animation runs, and
  -- what is drawn is the place and the scale.
  pub record IsSettled (t : Target N) : Type 0 where
    pub low : t.zoom_index < settings.zoom_num_levels
    pub animation_low : IsLow t.animation
    pub at_level :
        (0 < t.timers) ⊎ (t.scale ≡ get_or engine.nan (zoom_levels engine settings) t.zoom_index)
    pub shown : (t.drawn ≡ none) ⊎ (t.drawn ≡ some (t.translate_x, t.translate_y, t.scale))

  zoom_levels_from-length :
      (rounds i : ℕ) → length (zoom_levels_from engine settings rounds i) ≡ rounds
  unfolding zoom_levels_from
  zoom_levels_from-length zero i = refl
  zoom_levels_from-length (suc rounds) i =
      let rest = zoom_levels_from-length rounds (suc i) in rw rest refl

  bound_zoom_level-low : (num : ℕ) (level : ℤ) → 0 < num → bound_zoom_level num level < num
  unfolding bound_zoom_level
  bound_zoom_level-low num (pos n) positive = ground arith
  bound_zoom_level-low num (negsuc n) positive = ground arith

  set_mouse-IsSettled :
      (down : Bool) (x y : N) (t : Target N) → IsSettled t → IsSettled (set_mouse engine down x y t)
  set_mouse-IsSettled down x y t settled = record {
    low = settled.low;
    animation_low = settled.animation_low;
    at_level = settled.at_level;
    shown = settled.shown;
  }

  mouse_move-IsSettled :
      (x y : N) (t : Target N) → IsSettled t → IsSettled (mouse_move engine x y t)
  unfolding mouse_move translate_delta_graph
  mouse_move-IsSettled x y t settled = elim (Bool-cases t.m_down) [
    | inl down ↦ rw down record {
      low = settled.low;
      animation_low = settled.animation_low;
      at_level = settled.at_level;
      shown = inr refl;
    }
    | inr up ↦ rw up (set_mouse-IsSettled false x y t settled)
  ]

  -- The scale of a box, for an event that has one, is a number.
  abbrev pub HasScale : (N → Type 0) → Event N → Type 0
  HasScale IsNumber (boxed div_width div_height goal start_time time) = IsNumber (
      box_scale engine div_width div_height
        (if engine.truthy goal.width then goal.width else engine.of 1)
        (if engine.truthy goal.height then goal.height else engine.of 1) goal)
  HasScale IsNumber event = Unit

  module _ (positive : 0 < settings.zoom_num_levels) where
    init-IsSettled : IsSettled (init engine settings)
    unfolding init
    init-IsSettled = record {
      low = bound_zoom_level-low settings.zoom_num_levels settings.zoom_index positive;
      animation_low = tt;
      at_level = inr refl;
      shown = inl refl;
    }

    mouse_scrolled-IsSettled :
        (wheel_delta detail : ℤ) (offset layer : N × N) (t : Target N)
        → IsSettled t
        → IsSettled (mouse_scrolled engine settings wheel_delta detail offset layer t)
    unfolding mouse_scrolled scale_graph
    mouse_scrolled-IsSettled wheel_delta detail offset layer t settled = record {
      low = bound_zoom_level-low settings.zoom_num_levels _ positive;
      animation_low = settled.animation_low;
      at_level = inr refl;
      shown = inr refl;
    }

    animate_tick-IsSettled :
        (time : ℕ) (a : Animation N) (t : Target N)
        → a.to_scale_level < settings.zoom_num_levels
        → t.zoom_index < settings.zoom_num_levels
        → IsLow t.animation
        → IsSettled (animate_tick engine settings time a t)
    unfolding animate_tick
    animate_tick-IsSettled time a t to_low low animation_low =
        elim (Bool-cases (ltb time a.end_time)) [
          | inl before ↦ rw before record {
            low = low;
            animation_low = animation_low;
            at_level = inl (omega arith);
            shown = inr refl;
          }
          | inr after ↦ rw after record {
            low = to_low;
            animation_low = animation_low;
            at_level = inr refl;
            shown = inr refl;
          }
        ]

    fire-IsSettled :
        (time timers : ℕ) (animation : Option (Animation N)) (t : Target N)
        → IsLow animation
        → IsSettled t
        → IsSettled (fire engine settings time timers animation t)
    unfolding fire
    fire-IsSettled time zero animation t to_low settled = settled
    fire-IsSettled time (suc timers) none t to_low settled = settled
    fire-IsSettled time (suc timers) (some a) t to_low settled =
        animate_tick-IsSettled time a (record t { timers = timers }) to_low settled.low
          settled.animation_low

    module _ {IsNumber : N → Type 0} (order : IsOrder engine IsNumber)
        (numbers : All IsNumber (zoom_levels engine settings)) where
      found_low :
          (scale : N)
          → IsNumber scale
          → calculate_zoom_level engine scale (zoom_levels engine settings)
            < settings.zoom_num_levels
      found_low scale number =
          in_table (zoom_levels engine settings)
            (zoom_levels_from-length settings.zoom_num_levels 0) numbers
        where
          in_table :
              (levels : List N)
              → length levels ≡ settings.zoom_num_levels
              → All IsNumber levels
              → calculate_zoom_level engine scale levels < settings.zoom_num_levels
          in_table [] e numbers = absurd (omega (arith, e))
          in_table (level ∷ levels) e (first, numbers) =
              let (k, e', low, _) =
                find_level engine order scale level levels number first numbers in
              omega (arith, e, e', low)

      transform_to_box-IsSettled :
          (div_width div_height : N) (goal : Goal N) (start_time time : ℕ) (t : Target N)
          → HasScale IsNumber (boxed div_width div_height goal start_time time)
          → IsSettled t
          → IsSettled (transform_to_box engine settings div_width div_height goal start_time time t)
      unfolding transform_to_box animate_transform
      transform_to_box-IsSettled div_width div_height goal start_time time t number settled =
          animate_tick-IsSettled time _ _ (found_low _ number) settled.low (found_low _ number)

      act-IsSettled :
          (event : Event N) (t : Target N)
          → HasScale IsNumber event
          → IsSettled t
          → IsSettled (act event t)
      unfolding act mouse_down mouse_up mouse_out
      act-IsSettled (pressed button x y) t number settled = elim (Bool-cases (ltb 1 button)) [
        | inl other ↦ simp (mouse_down, other) settled
        | inr main ↦ simp (mouse_down, main) (set_mouse-IsSettled true x y t settled)
      ]
      act-IsSettled (released button x y) t number settled = elim (Bool-cases (ltb 1 button)) [
        | inl other ↦ simp (mouse_up, other) settled
        | inr main ↦ simp (mouse_up, main) (set_mouse-IsSettled false x y t settled)
      ]
      act-IsSettled (left x y) t number settled = set_mouse-IsSettled false x y t settled
      act-IsSettled (moved x y) t number settled = mouse_move-IsSettled x y t settled
      act-IsSettled (scrolled wheel_delta detail offset layer) t number settled =
          mouse_scrolled-IsSettled wheel_delta detail offset layer t settled
      act-IsSettled (boxed div_width div_height goal start_time time) t number settled =
          transform_to_box-IsSettled div_width div_height goal start_time time t number settled
      act-IsSettled (fired time) t number settled =
          fire-IsSettled time t.timers t.animation t settled.animation_low settled

      session_kept :
          (events : List (Event N)) (t : Target N)
          → All (HasScale IsNumber) events
          → IsSettled t
          → IsSettled (act_all events t)
      unfolding act_all
      session_kept [] t numbers' settled = settled
      session_kept (event ∷ events) t (number, numbers') settled =
          session_kept events (act event t) numbers' (act-IsSettled event t number settled)

      -- With at least one level, levels that are numbers, and boxes whose scales are numbers, after
      -- every sequence of events from init the zoom index and the level of the last animation are
      -- indices of the table, the scale is that of the zoom index or a timer is set, and what is
      -- drawn, once something is, is the place and the scale of the element.
      pub act_all-IsSettled :
          (events : List (Event N))
          → All (HasScale IsNumber) events
          → IsSettled (act_all events (init engine settings))
      act_all-IsSettled events numbers' =
          session_kept events (init engine settings) numbers' init-IsSettled
