-- ===== src/Navigate.antt =====
-- util/svg-navigate.js: moving and zooming a graph with the mouse, and by an animation. The engine's
-- numbers are an argument, with their arithmetic and comparisons. Events on elements inside the
-- graph, which keep the state of the mouse on these elements, are left out.
pub mod Levels
pub mod Session
pub mod Arrival
mod Tests
use azkaban_private.Prelude.{
  ℕ, zero, suc, ◌+◌, ◌-◌, ◌*◌, ◌/◌, ◌==◌, leb, ltb, if◌then◌else◌, Bool, true, false, not, ◌&&◌,
  Option, none, some, List, [], ◌∷◌, length,
}
use azkaban_private.Prelude.Int.{ℤ, pos, negsuc, ◌+ℤ◌, leb_ℤ, pos_part}

-- What the engine does on numbers. `truthy` is false of 0 and NaN.
pub record Numbers (N : Type 0) : Type 0 where
  pub of : ℕ → N
  pub tenths : ℕ → N
  pub nan : N
  pub add : N → N → N
  pub sub : N → N → N
  pub mul : N → N → N
  pub div : N → N → N
  pub lt : N → N → Bool
  pub le : N → N → Bool
  pub floor : N → ℕ
  pub ceil : N → ℕ
  pub truthy : N → Bool

-- The settings that the others depend on.
pub record Settings (N : Type 0) : Type 0 where
  pub x : N
  pub y : N
  pub zoom_index : ℤ
  pub zoom_points : List N
  pub zoom_num_levels : ℕ

-- What a call of animateTransform leaves for the ticks.
pub record Animation (N : Type 0) : Type 0 where
  pub to_scale_level : ℕ
  pub from_x : N
  pub from_y : N
  pub from_scale : N
  pub to_scale : N
  pub to_x : N
  pub to_y : N
  pub start_time : ℕ
  pub end_time : ℕ

-- The element: `drawn` is the transform of its groups, once one is set, and `timers` counts the
-- ticks that are set.
pub record Target (N : Type 0) : Type 0 where
  pub translate_x : N
  pub translate_y : N
  pub scale : N
  pub zoom_index : ℕ
  pub mx : N
  pub my : N
  pub m_down : Bool
  pub animation : Option (Animation N)
  pub drawn : Option (N × N × N)
  pub timers : ℕ

abbrev pub get_or : {N : Type 0} → N → List N → ℕ → N
get_or other [] i = other
get_or other (x ∷ xs) zero = x
get_or other (x ∷ xs) (suc i) = get_or other xs i

-- `boundZoomLevel`, for at least one level.
unfoldable pub bound_zoom_level : ℕ → ℤ → ℕ
bound_zoom_level zoom_num_levels level =
    if leb_ℤ (pos zoom_num_levels) level
    then zoom_num_levels - 1
    else if leb_ℤ level (pos 0)
    then 0
    else pos_part level

-- How far a turn of the wheel zooms, by `wheelDelta` or by `detail`.
unfoldable pub wheel_steps : ℤ → ℤ → ℤ
wheel_steps (pos (suc n)) detail = pos ((suc n + 119) / 120)
wheel_steps (negsuc n) detail = negsuc ((n + 120) / 120 - 1)
wheel_steps (pos zero) (pos (suc n)) = negsuc ((suc n + 2) / 3 - 1)
wheel_steps (pos zero) (negsuc n) = pos ((n + 3) / 3)
wheel_steps (pos zero) (pos zero) = pos 0

-- The argument of `transformToBox`; a bound on the scale that is not given is 0.
pub record Goal (N : Type 0) : Type 0 where
  pub x : N
  pub y : N
  pub width : N
  pub height : N
  pub max_scale : N
  pub min_scale : N
  pub duration : Option ℕ

module _ {N : Type 0} (engine : Numbers N) where
  -- `retransform`
  abbrev pub retransform : Target N → Target N
  retransform t = record t { drawn = some (t.translate_x, t.translate_y, t.scale) }

  -- `calculateZoomScale`
  unfoldable pub calculate_zoom_scale : ℕ → ℕ → List N → N
  calculate_zoom_scale scale_level num_levels points =
      let point = get_or engine.nan points in
      let factor =
        engine.mul (engine.div (engine.of scale_level) (engine.of num_levels))
          (engine.of (length points - 1)) in
      let floor_idx = engine.floor factor in
      let ceiling_idx = engine.ceil factor in
      let b = engine.sub factor (engine.of floor_idx) in
      if leb scale_level 0
      then point 0
      else if leb num_levels scale_level
      then point (length points - 1)
      else engine.add (engine.mul b (engine.sub (point ceiling_idx) (point floor_idx)))
          (point floor_idx)

  -- `target.zoomLevels`, from an index on.
  unfoldable pub zoom_levels_from : Settings N → ℕ → ℕ → List N
  zoom_levels_from settings zero i = []
  zoom_levels_from settings (suc rounds) i =
      calculate_zoom_scale i settings.zoom_num_levels settings.zoom_points
      ∷ zoom_levels_from settings rounds (suc i)

  abbrev pub zoom_levels : Settings N → List N
  zoom_levels settings = zoom_levels_from settings settings.zoom_num_levels 0

  -- The linear scan: the index before the first greater level, or the number of levels.
  unfoldable pub scan_levels : N → List N → ℕ → ℕ
  scan_levels scale [] i = i
  scan_levels scale (level ∷ levels) i =
      let rest = scan_levels scale levels (suc i) in if engine.lt scale level then i - 1 else rest

  -- `calculateZoomLevel`
  unfoldable pub calculate_zoom_level : N → List N → ℕ
  calculate_zoom_level scale levels =
      if engine.le (get_or engine.nan levels (length levels - 1)) scale
      then length levels - 1
      else if engine.le scale (get_or engine.nan levels 0)
      then 0
      else scan_levels scale levels 0

  -- `init`, with `resetTransform` for settings without a box.
  unfoldable pub init : Settings N → Target N
  init settings =
      let zoom_index = bound_zoom_level settings.zoom_num_levels settings.zoom_index in
      record {
        translate_x = settings.x;
        translate_y = settings.y;
        scale = get_or engine.nan (zoom_levels settings) zoom_index;
        zoom_index = zoom_index;
        mx = engine.nan;
        my = engine.nan;
        m_down = false;
        animation = none;
        drawn = none;
        timers = 0;
      }

  -- `mouseDown`, `mouseUp` and `mouseOut`, of the left or middle button.
  abbrev pub set_mouse : Bool → N → N → Target N → Target N
  set_mouse down x y t = record t { mx = x; my = y; m_down = down }

  unfoldable pub mouse_down : ℕ → N → N → Target N → Target N
  mouse_down button x y t = if ltb 1 button then t else set_mouse true x y t

  unfoldable pub mouse_up : ℕ → N → N → Target N → Target N
  mouse_up button x y t = if ltb 1 button then t else set_mouse false x y t

  unfoldable pub mouse_out : N → N → Target N → Target N
  mouse_out x y t = set_mouse false x y t

  -- `translateDeltaGraph`
  unfoldable pub translate_delta_graph : N → N → Target N → Target N
  translate_delta_graph dx dy t = retransform (record t {
    translate_x = engine.add t.translate_x dx;
    translate_y = engine.add t.translate_y dy;
  })

  unfoldable pub mouse_move : N → N → Target N → Target N
  mouse_move x y t =
      let dragged = translate_delta_graph (engine.sub x t.mx) (engine.sub y t.my) t in
      record (if t.m_down then dragged else t) { mx = x; my = y }

  -- `scaleGraph`
  unfoldable pub scale_graph : N → N → N → Target N → Target N
  scale_graph scale x y t =
      let sfactor = engine.div scale t.scale in
      let moved = λ (from at : N).
        engine.sub (engine.add (engine.mul sfactor from) at) (engine.mul sfactor at) in
      retransform (record t {
        scale = scale;
        translate_x = moved t.translate_x x;
        translate_y = moved t.translate_y y;
      })

  -- `mouseScrolled`: the place of the pointer is given by the offset or, if that is 0 or not there,
  -- by the layer.
  unfoldable pub mouse_scrolled : Settings N → ℤ → ℤ → (N × N) → (N × N) → Target N → Target N
  mouse_scrolled settings wheel_delta detail offset layer t =
      let zoom_level =
        bound_zoom_level settings.zoom_num_levels
          (pos t.zoom_index +ℤ wheel_steps wheel_delta detail) in
      let place = if engine.truthy offset.0 then offset else layer in
      scale_graph (get_or engine.nan (zoom_levels settings) zoom_level) place.0 place.1
        (record t { zoom_index = zoom_level })

  -- `animateTick` at a time, for the last animation. A tick before its end sets the next.
  unfoldable pub animate_tick : Settings N → ℕ → Animation N → Target N → Target N
  animate_tick settings time a t =
      let progress =
        engine.div (engine.sub (engine.of time) (engine.of a.start_time))
          (engine.sub (engine.of a.end_time) (engine.of a.start_time)) in
      let mixed = λ (from to : N). engine.add (engine.mul (engine.sub to from) progress) from in
      retransform (
        if ltb time a.end_time
        then record t {
          scale = mixed a.from_scale a.to_scale;
          translate_x = mixed a.from_x a.to_x;
          translate_y = mixed a.from_y a.to_y;
          timers = suc t.timers;
        }
        else record t {
          zoom_index = a.to_scale_level;
          scale = get_or engine.nan (zoom_levels settings) a.to_scale_level;
          translate_x = a.to_x;
          translate_y = a.to_y;
        })

  -- `animateTransform`, which reads the clock twice.
  unfoldable pub animate_transform : Settings N → N → N → N → ℕ → ℕ → ℕ → Target N → Target N
  animate_transform settings scale x y duration start_time time t =
      let zoom_level = calculate_zoom_level scale (zoom_levels settings) in
      let a : Animation N = record {
        to_scale_level = zoom_level;
        from_x = t.translate_x;
        from_y = t.translate_y;
        from_scale = t.scale;
        to_scale = get_or engine.nan (zoom_levels settings) zoom_level;
        to_x = x;
        to_y = y;
        start_time = start_time;
        end_time = start_time + duration;
      } in
      animate_tick settings time a (record t { animation = some a })

  -- The scale of `transformToBox`, in a parent of a width and height.
  unfoldable pub box_scale : N → N → N → N → Goal N → N
  box_scale div_width div_height width height goal =
      let aspect_ratio_graph = engine.div height width in
      let aspect_ratio_div = engine.div div_height div_width in
      let factor = engine.tenths 9 in
      let scale =
        if engine.lt aspect_ratio_div aspect_ratio_graph
        then engine.mul (engine.div div_height height) factor
        else engine.mul (engine.div div_width width) factor in
      let most =
        if engine.truthy goal.max_scale && engine.lt goal.max_scale scale
        then goal.max_scale
        else scale in
      if engine.truthy goal.min_scale && engine.lt most goal.min_scale then goal.min_scale else most

  -- `transformToBox`
  unfoldable pub transform_to_box : Settings N → N → N → Goal N → ℕ → ℕ → Target N → Target N
  transform_to_box settings div_width div_height goal start_time time t =
      let width = if engine.truthy goal.width then goal.width else engine.of 1 in
      let height = if engine.truthy goal.height then goal.height else engine.of 1 in
      let scale = box_scale div_width div_height width height goal in
      let centered = λ (div size at : N).
        engine.sub (engine.div (engine.sub div (engine.mul size scale)) (engine.of 2))
          (engine.mul scale at) in
      let duration : ℕ = elim goal.duration [ none ↦ 500 | some d ↦ d ] in
      animate_transform settings scale (centered div_width width goal.x)
        (centered div_height height goal.y) duration start_time time t

  -- A timer that fires, one of a number that are set.
  unfoldable pub fire : Settings N → ℕ → ℕ → Option (Animation N) → Target N → Target N
  fire settings time zero animation t = t
  fire settings time (suc timers) none t = t
  fire settings time (suc timers) (some a) t =
      animate_tick settings time a (record t { timers = timers })

  abbrev pub timer_fires : Settings N → ℕ → Target N → Target N
  timer_fires settings time t = fire settings time t.timers t.animation t
