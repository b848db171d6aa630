-- ===== src/Navigate/Tests.antt =====
-- Runs of util/svg-navigate.js, on numbers with three decimal places.
use azkaban_private.Prelude.{
  ℕ, ◌+◌, ◌-◌, ◌*◌, ◌/◌, ◌<◌, ◌==◌, ◌≡◌, refl, if◌then◌else◌, not, none, List, [], ◌∷◌, All, map,
  leb, ltb, arith,
}
use azkaban_private.Prelude.Int.{pos, negsuc}
use azkaban_private.Navigate.{
  Numbers, Settings, Goal, zoom_levels_from, zoom_levels, calculate_zoom_scale, scan_levels, fire,
  animate_tick, mouse_down, mouse_up, mouse_out, mouse_move, translate_delta_graph, scale_graph,
  bound_zoom_level, wheel_steps, box_scale, calculate_zoom_level, init, mouse_scrolled,
  animate_transform, transform_to_box,
}
use azkaban_private.Navigate.Levels.{IsOrder, IsLevelOf, calculate_zoom_level_lem}
use azkaban_private.Navigate.Session.{
  Event, act, pressed, released, left, moved, scrolled, boxed, fired, act_all, IsSettled,
  act_all-IsSettled,
}
use azkaban_private.Navigate.Arrival.{StandsAt, animate_transform-StandsAt}

abbrev decimal : Numbers ℕ
decimal = record {
  of = λ n. n * 1000;
  tenths = λ n. n * 100;
  nan = 0;
  add = λ a b. a + b;
  sub = λ a b. a - b;
  mul = λ a b. a * b / 1000;
  div = λ a b. a * 1000 / b;
  lt = ltb;
  le = leb;
  floor = λ a. a / 1000;
  ceil = λ a. (a + 999) / 1000;
  truthy = λ a. not (a == 0);
}

decimal-IsOrder : IsOrder decimal (λ a. Unit)
decimal-IsOrder = record {
  lt_iff = λ a b number number'. ground arith;
  le_of_lt = λ a b number number' less. ground (arith, less);
}

abbrev four_levels : Settings ℕ
four_levels = record {
  x = 0;
  y = 0;
  zoom_index = pos 2;
  zoom_points = 1000 ∷ 2000 ∷ 4000 ∷ 8000 ∷ 16000 ∷ [];
  zoom_num_levels = 4;
}

abbrev a_box : Goal ℕ
a_box = record {
  x = 1000;
  y = 0;
  width = 20000;
  height = 10000;
  max_scale = 3000;
  min_scale = 0;
  duration = none;
}

levels : zoom_levels decimal four_levels ≡ 1000 ∷ 2000 ∷ 4000 ∷ 8000 ∷ []
unfolding zoom_levels_from calculate_zoom_scale
levels = refl

calculate_zoom_level_lem_example :
    (calculate_zoom_level decimal 5000 (1000 ∷ 2000 ∷ 4000 ∷ 8000 ∷ []) < 4)
    × IsLevelOf decimal 5000
        (1000 ∷ 2000 ∷ 4000 ∷ 8000 ∷ [])
        (calculate_zoom_level decimal 5000 (1000 ∷ 2000 ∷ 4000 ∷ 8000 ∷ []))
    × (calculate_zoom_level decimal 2000 (1000 ∷ 2000 ∷ 4000 ∷ 8000 ∷ []) ≡ 1)
calculate_zoom_level_lem_example =
    calculate_zoom_level_lem decimal decimal-IsOrder 5000 1000 (2000 ∷ 4000 ∷ 8000 ∷ []) 1 tt tt
      (tt, (tt, (tt, tt)))
      ((refl, (refl, (refl, tt))), ((refl, (refl, tt)), ((refl, tt), (tt, tt)))) (omega arith)

-- A drag, a turn of the wheel, and a box during which the wheel turns again.
abbrev some_events : List (Event ℕ)
some_events =
    pressed 0 5000 5000
    ∷ moved 7000 6000
    ∷ released 0 7000 6000
    ∷ scrolled (pos 120) (pos 0) (3000, 3000) (0, 0)
    ∷ boxed 80000 60000 a_box 10 10
    ∷ fired 100
    ∷ scrolled (negsuc 239) (pos 0) (3000, 3000) (0, 0)
    ∷ fired 600
    ∷ left 0 0
    ∷ []

levels_numbers : All (λ (a : ℕ). Unit {0}) (zoom_levels decimal four_levels)
unfolding zoom_levels_from
levels_numbers = (tt, (tt, (tt, (tt, tt))))

act_all-IsSettled_example :
    IsSettled decimal four_levels
      (act_all decimal four_levels some_events (init decimal four_levels))
act_all-IsSettled_example =
    act_all-IsSettled decimal four_levels (omega arith) decimal-IsOrder levels_numbers some_events
      (tt, (tt, (tt, (tt, (tt, (tt, (tt, (tt, (tt, tt)))))))))

animate_transform-StandsAt_example :
    ((animate_transform decimal four_levels 5000 100 200 500 10 10
        (init decimal four_levels)).timers
      ≡ (if ltb 10 (10 + 500) then 1 else 0) + (init decimal four_levels).timers)
    × ((act_all decimal four_levels (map fired (100 ∷ 20 ∷ 600 ∷ [])) (
          animate_transform decimal four_levels 5000 100 200 500 10 10
            (init decimal four_levels))).timers
        ≡ 0)
    × StandsAt decimal four_levels
        (calculate_zoom_level decimal 5000 (zoom_levels decimal four_levels))
        100
        200
        (act_all decimal four_levels
          (map fired (100 ∷ 20 ∷ 600 ∷ []))
          (animate_transform decimal four_levels 5000 100 200 500 10 10 (init decimal four_levels)))
unfolding animate_transform animate_tick init
animate_transform-StandsAt_example =
    animate_transform-StandsAt decimal four_levels 5000 100 200 500 10 10 (100 ∷ 20 ∷ 600 ∷ [])
      (init decimal four_levels) (omega arith)

-- The turn of the wheel while the box is approached is lost: the last tick sets the level of the
-- box again.
after_events : (act_all decimal four_levels some_events (init decimal four_levels)).zoom_index ≡ 1
unfolding act_all act init mouse_down mouse_up mouse_out mouse_move translate_delta_graph
    scale_graph mouse_scrolled animate_tick animate_transform transform_to_box fire
    calculate_zoom_level zoom_levels_from calculate_zoom_scale scan_levels bound_zoom_level
    wheel_steps box_scale
after_events = refl
