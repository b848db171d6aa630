-- ===== src/Execution/Buttons.antt =====
-- The buttons of the page's head against the states in which the page goes on asking for updates.
use azkaban_private.Prelude.{ℕ, ◌==◌, ◌≡◌, refl, ◌↔◌, Bool, true, false, ◌||◌, List, [], ◌∷◌}
use azkaban_private.Status.{Status}
use azkaban_private.Execution.{
  Button, cancel, execute, pause, resume, retry, buttons_shown, keep_running,
}

abbrev number : Button → ℕ
number cancel = 0
number execute = 1
number pause = 2
number resume = 3
number retry = 4

abbrev shows : Button → List Button → Bool
shows b [] = false
shows b (c ∷ cs) = number b == number c || shows b cs

-- The button to execute the flow again is there exactly when the page no longer asks for updates;
-- then no other button is, and where the flow can be paused, resumed or retried it can be cancelled.
buttons_shown-keep_running :
    (s : Status)
    → (shows execute (buttons_shown s) ≡ true ↔ keep_running s ≡ false)
      × (shows execute (buttons_shown s) ≡ true → buttons_shown s ≡ execute ∷ [])
      × ((b : Button)
          → shows b (buttons_shown s) ≡ true
          → keep_running s ≡ true
          → shows cancel (buttons_shown s) ≡ true)
unfolding keep_running
buttons_shown-keep_running Status.ready = ((λ e. cc, λ e. cc), λ e. cc, λ b h k. cc)
buttons_shown-keep_running Status.preparing = ((λ e. cc, λ e. cc), λ e. cc, λ b h k. refl)
buttons_shown-keep_running Status.running = ((λ e. cc, λ e. cc), λ e. cc, λ b h k. refl)
buttons_shown-keep_running Status.paused = ((λ e. cc, λ e. cc), λ e. cc, λ b h k. refl)
buttons_shown-keep_running Status.succeeded = ((λ e. refl, λ e. refl), λ e. refl, λ b h k. cc)
buttons_shown-keep_running Status.killed = ((λ e. refl, λ e. refl), λ e. refl, λ b h k. cc)
buttons_shown-keep_running Status.failed = ((λ e. refl, λ e. refl), λ e. refl, λ b h k. cc)
buttons_shown-keep_running Status.failed_finishing = ((λ e. cc, λ e. cc), λ e. cc, λ b h k. refl)
buttons_shown-keep_running Status.skipped = ((λ e. cc, λ e. cc), λ e. cc, λ b h k. cc)
buttons_shown-keep_running Status.disabled = ((λ e. cc, λ e. cc), λ e. cc, λ b h k. cc)
buttons_shown-keep_running Status.queued = ((λ e. cc, λ e. cc), λ e. cc, λ b h k. cc)
buttons_shown-keep_running Status.failed_succeeded = ((λ e. cc, λ e. cc), λ e. cc, λ b h k. cc)
buttons_shown-keep_running Status.cancelled = ((λ e. cc, λ e. cc), λ e. cc, λ b h k. cc)
buttons_shown-keep_running Status.unknown = ((λ e. cc, λ e. cc), λ e. cc, λ b h k. cc)
buttons_shown-keep_running Status.waiting = ((λ e. cc, λ e. cc), λ e. cc, λ b h k. refl)
