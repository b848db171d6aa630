-- ===== src/Status.antt =====
-- The statuses of util/job-status.js, with the one more that the server's enumeration has.
use azkaban_private.Prelude.{ℕ, ◌==◌, ◌≡◌, ◌↔◌, Bool, true, List, [], ◌∷◌, arith}

pub data Status : Type 0 where
  ready preparing running paused succeeded killed failed failed_finishing : Status
  skipped disabled queued failed_succeeded cancelled unknown waiting : Status

-- A number for each, to compare by.
abbrev pub index : Status → ℕ
index ready = 0
index preparing = 1
index running = 2
index paused = 3
index succeeded = 4
index killed = 5
index failed = 6
index failed_finishing = 7
index skipped = 8
index disabled = 9
index queued = 10
index failed_succeeded = 11
index cancelled = 12
index unknown = 13
index waiting = 14

-- `a == b` of two statuses.
abbrev pub is : Status → Status → Bool
is a b = index a == index b

pub is_iff : (a b : Status) → (is a b ≡ true) ↔ (a ≡ b)
is_iff a b = ground arith

-- `statusList`: the classes that are taken off an element before its status is put on.
abbrev pub status_list : List Status
status_list =
    failed ∷ failed_finishing ∷ succeeded ∷ running ∷ waiting ∷ killed ∷ disabled ∷ ready
    ∷ cancelled ∷ unknown ∷ paused ∷ skipped ∷ queued ∷ []
