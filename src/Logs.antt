-- ===== src/Logs.antt =====
-- model/job-log.js and the log of view/exflow.js: how the text of a log is fetched in parts.
pub mod Complete
mod Tests
use azkaban_private.Prelude.{
  ℕ, zero, suc, ◌+◌, ◌==◌, ◌≡◌, ◌≤◌, ◌<◌, if◌then◌else◌, Option, none, some, List, [], ◌∷◌, ◌++◌,
}

-- The server's answer to a request for part of a log: no answer, an answer with a field `error`,
-- or a part with its offset, its length in bytes and its text.
pub data Reply (A : Type 0) : Type 0 where
  no_answer refused : Reply A
  part : ℕ → ℕ → List A → Reply A

-- The fields `offset` and `logData` of `JobLogModel`, and `offset` and the page's text for the log
-- of a flow. A text is the list of its characters.
pub record LogModel (A : Type 0) : Type 0 where
  pub offset : ℕ
  pub log_data : List A

module _ {A : Type 0} where
  abbrev pub initialize : LogModel A
  initialize = record { offset = 0; log_data = [] }

  -- The model with a part put at its end.
  abbrev pub take_part : ℕ → ℕ → List A → LogModel A → LogModel A
  take_part offset length text m = record {
    offset = offset + length;
    log_data = m.log_data ++ text;
  }

  -- `refresh`: the loop until the server has no more. The server answers the request number `n`
  -- for an offset; the result has the number of the next request. The fuel bounds the rounds.
  unfoldable pub refresh : ℕ → (ℕ → ℕ → Reply A) → ℕ → LogModel A → Option (ℕ × LogModel A)
  refresh zero server n m = none
  refresh (suc fuel) server n m = elim (server n m.offset) [
    | no_answer ↦ some (suc n, m)
    | refused ↦ some (suc n, m)
    | part offset length text ↦
        let rest = refresh fuel server (suc n) (take_part offset length text m) in
        if length == 0 then some (suc n, m) else rest
  ]

  -- `handleUpdate` of `FlowLogView`: one request, and the text is put at the end of the page's,
  -- which it replaces where that is empty.
  unfoldable pub handle_update : Reply A → LogModel A → LogModel A
  handle_update no_answer m = m
  handle_update refused m = m
  handle_update (part offset length text) m = record {
    offset = offset + length;
    log_data = elim m.log_data [ [] ↦ text | c ∷ log ↦ (c ∷ log) ++ text ];
  }
