-- ===== src/Navigate/Arrival.antt =====
-- The end of an animation of util/svg-navigate.js, in the order in which its timers fire.
use azkaban_private.Prelude.{
  ℕ, zero, suc, ◌+◌, ◌-◌, ◌≤◌, ◌≡◌, refl, sym, subst, ◌∙◌, if◌then◌else◌, Bool-cases, inl, inr,
  Option, some, List, [], ◌∷◌, map, ltb, arith,
}
use azkaban_private.Navigate.{
  Numbers, Settings, Animation, Target, get_or, zoom_levels, calculate_zoom_level, animate_tick,
  animate_transform, fire, timer_fires,
}
use azkaban_private.Navigate.Session.{fired, act, act_all}

-- How many of the times are not before the end.
abbrev pub late : ℕ → List ℕ → ℕ
late end_time [] = 0
late end_time (time ∷ times) = (if ltb time end_time then 0 else 1) + late end_time times

module _ {N : Type 0} (engine : Numbers N) (settings : Settings N) where
  -- The element stands at a place, at a level of the table, and is drawn there.
  abbrev pub StandsAt : ℕ → N → N → Target N → Type 0
  StandsAt level x y t =
      (t.zoom_index ≡ level)
      × (t.scale ≡ get_or engine.nan (zoom_levels engine settings) level)
      × (t.translate_x ≡ x)
      × (t.translate_y ≡ y)
      × (t.drawn ≡ some (t.translate_x, t.translate_y, t.scale))

  -- With the animation, where it goes as soon as no timer is left.
  record IsGoing (a : Animation N) (t : Target N) : Type 0 where
    animated : t.animation ≡ some a
    arrives : t.timers ≡ 0 → StandsAt a.to_scale_level a.to_x a.to_y t

  tick :
      (time : ℕ) (a : Animation N) (t : Target N)
      → t.animation ≡ some a
      → let t' = animate_tick engine settings time a t in
        (t'.timers ≡ (if ltb time a.end_time then 1 else 0) + t.timers) × IsGoing a t'
  unfolding animate_tick
  tick time a t is_last = elim (Bool-cases (ltb time a.end_time)) [
    | inl before ↦ rw before (
      omega arith,
      record { animated = is_last; arrives = λ none_left. absurd (omega (arith, none_left)) },
    )
    | inr after ↦
        rw after (
          omega arith,
          record { animated = is_last; arrives = λ _. (refl, refl, refl, refl, refl) },
        )
  ]

  fire_one :
      (time timers : ℕ) (a : Animation N) (t : Target N)
      → t.timers ≡ timers
      → IsGoing a t
      → let t' = fire engine settings time timers (some a) t in
        (t'.timers ≡ timers - late a.end_time (time ∷ [])) × IsGoing a t'
  unfolding fire
  fire_one time zero a t e going = (e ∙ omega arith, going)
  fire_one time (suc timers) a t e going =
      let (left, going') = tick time a (record t { timers = timers }) going.animated in
      (ground (arith, left), going')

  fire_all :
      (times : List ℕ) (a : Animation N) (t : Target N)
      → IsGoing a t
      → let t' = act_all engine settings (map fired times) t in
        (t'.timers ≡ t.timers - late a.end_time times) × IsGoing a t'
  unfolding act_all act
  fire_all [] a t going = (omega arith, going)
  fire_all (time ∷ times) a t going =
      let (left, going') =
        subst
          (λ (animation : Option (Animation N)).
            let t' = fire engine settings time t.timers animation t in
            (t'.timers ≡ t.timers - late a.end_time (time ∷ [])) × IsGoing a t')
          (sym going.animated) (fire_one time t.timers a t refl going) in
      let (left', going'') = fire_all times a (timer_fires engine settings time t) going' in
      (omega (arith, left, left'), going'')

  -- animateTransform adds a timer, unless its time has passed already. When as many timers have
  -- fired at the end of the animation or later as animateTransform left set, in any order with
  -- timers that fire earlier, none is left, and the element stands at the place that was asked for,
  -- at the level that calculateZoomLevel gives for the scale.
  pub animate_transform-StandsAt :
      (scale x y : N) (duration start_time time : ℕ) (times : List ℕ) (t : Target N)
      → (animate_transform engine settings scale x y duration start_time time t).timers
        ≤ late (start_time + duration) times
      → let t' = animate_transform engine settings scale x y duration start_time time t in
        let t'' = act_all engine settings (map fired times) t' in
        (t'.timers ≡ (if ltb time (start_time + duration) then 1 else 0) + t.timers)
        × (t''.timers ≡ 0)
        × StandsAt (calculate_zoom_level engine scale (zoom_levels engine settings)) x y t''
  unfolding animate_transform
  animate_transform-StandsAt scale x y duration start_time time times t enough =
      let (started, going) = tick time _ (record t { animation = some _ }) refl in
      let (left, going') = fire_all times _ _ going in
      (started, omega (arith, left, enough), going'.arrives (omega (arith, left, enough)))
