-- ===== src/Logs/Complete.antt =====
-- Fetching a log until the offset stays, against the text up to the offset.
use azkaban_private.Prelude.{
  ℕ, zero, suc, ◌+◌, ◌==◌, ◌≡◌, refl, ◌∙◌, ap, subst, ◌≤◌, ◌<◌, some, List, [], ◌∷◌, ◌++◌, arith,
  Bool-cases, inl, inr,
}
use azkaban_private.Logs.{Reply, part, LogModel, take_part, refresh, handle_update}

-- A server that keeps one log: `size n` bytes at the request number `n`, and `text a b` is the
-- text of the bytes from `a` to `b`. It answers with a part that starts at the offset asked for,
-- and which is empty only at the end of the log. A log grows, up to `total`.
pub record IsLogServer {A : Type 0} (text : ℕ → ℕ → List A) (size : ℕ → ℕ) (total : ℕ)
    (server : ℕ → ℕ → Reply A) : Type 0 where
  pub joins : (a b c : ℕ) → a ≤ b → b ≤ c → text a b ++ text b c ≡ text a c
  pub grows : (n : ℕ) → size n ≤ size (suc n)
  pub bounded : (n : ℕ) → size n ≤ total
  pub answers :
      (n a : ℕ)
      → a ≤ size n
      → (len : ℕ) × (server n a ≡ part a len (text a (a + len)))
        × (a + len ≤ size n)
        × (len ≡ 0 → a ≡ size n)

-- The model holds the text of the bytes before its offset.
abbrev pub Holds : {A : Type 0} → (ℕ → ℕ → List A) → LogModel A → Type 0
Holds text m = m.log_data ≡ text 0 m.offset

module _ {A : Type 0} (text : ℕ → ℕ → List A) (size : ℕ → ℕ) (total : ℕ) (server : ℕ → ℕ → Reply A)
    (s : IsLogServer text size total server) where
  take_part-Holds :
      (m : LogModel A) (len : ℕ)
      → Holds text m
      → Holds text (take_part m.offset len (text m.offset (m.offset + len)) m)
  take_part-Holds m len held =
      ap (λ t. t ++ text m.offset (m.offset + len)) held
      ∙ s.joins 0 m.offset (m.offset + len) (omega arith) (omega arith)

  -- With fuel for the bytes that the log may still get, `refresh` returns, and the model then
  -- holds the whole log, as it was at the last request.
  refresh_from :
      (fuel n : ℕ) (m : LogModel A)
      → Holds text m
      → m.offset ≤ size n
      → total < m.offset + fuel
      → (k : ℕ) × (m' : LogModel A) × (refresh fuel server n m ≡ some (suc k, m'))
        × (n ≤ k)
        × (m'.offset ≡ size k)
        × (m'.log_data ≡ text 0 (size k))
  unfolding refresh
  refresh_from zero n m held low enough = let most = s.bounded n in absurd (omega arith)
  refresh_from (suc fuel) n m held low enough =
      let (len, answer, inside, last) = s.answers n m.offset low in
      elim (Bool-cases (len == 0)) [
        | inl none_left ↦
            let end : m.offset ≡ size n = last (ground arith) in
            (n, m, rw (answer, none_left, refresh), omega arith, end, held ∙ ap (text 0) end)
        | inr more ↦
            let grown = s.grows n in
            let positive : 0 < len = ground arith in
            let (k, m', ran, later, end, whole) =
              refresh_from fuel (suc n) (take_part m.offset len (text m.offset (m.offset + len)) m)
                (take_part-Holds m len held) (omega arith) (omega arith) in
            (k, m', rw (answer, more, refresh) ran, omega arith, end, whole)
      ]

-- `refresh` of a log that the server keeps, and that does not grow beyond `total` bytes: it returns
-- within `total - offset + 1` rounds, and if the model held the text before its offset, it then
-- holds the whole text of the log as of the last request.
pub refresh_lem :
    {A : Type 0} (text : ℕ → ℕ → List A) (size : ℕ → ℕ) (total : ℕ) (server : ℕ → ℕ → Reply A)
    → IsLogServer text size total server
    → (fuel n : ℕ) (m : LogModel A) → Holds text m
    → m.offset ≤ size n
    → total < m.offset + fuel
    → (k : ℕ) × (m' : LogModel A) × (refresh fuel server n m ≡ some (suc k, m'))
      × (n ≤ k)
      × (m'.offset ≡ size k)
      × (m'.log_data ≡ text 0 (size k))
refresh_lem text size total server s = refresh_from text size total server s

-- The updates of a flow's log, one request each.
abbrev pub handle_updates : {A : Type 0} → (ℕ → ℕ → Reply A) → ℕ → ℕ → LogModel A → LogModel A
handle_updates server n zero m = m
handle_updates server n (suc k) m =
    handle_updates server (suc n) k (handle_update (server n m.offset) m)

handle_update-append :
    {A : Type 0} (a len : ℕ) (text : List A) (m : LogModel A)
    → handle_update (part a len text) m ≡ take_part a len text m
unfolding handle_update
handle_update-append a len text m =
    ap (λ l. record { offset = a + len; log_data = l }) (joined m.log_data)
  where
    joined : (log : List _) → elim log [ [] ↦ text | c ∷ rest ↦ (c ∷ rest) ++ text ] ≡ log ++ text
    joined [] = refl
    joined (c ∷ rest) = refl

-- However often the log of a flow is updated, the page holds the text of the log before its
-- offset, each part once, and the offset stays within the log.
pub handle_updates-Holds :
    {A : Type 0} (text : ℕ → ℕ → List A) (size : ℕ → ℕ) (total : ℕ) (server : ℕ → ℕ → Reply A)
    → IsLogServer text size total server
    → (k n : ℕ) (m : LogModel A) → Holds text m
    → m.offset ≤ size n
    → (m' : LogModel A) × (handle_updates server n k m ≡ m')
      × Holds text m'
      × (m.offset ≤ m'.offset)
      × (m'.offset ≤ size (n + k))
      × ((0 < k) × (m'.offset ≡ m.offset) → m.offset ≡ size n)
handle_updates-Holds text size total server s zero n m held low = (
  m,
  refl,
  held,
  omega arith,
  subst (λ j. m.offset ≤ size j) (omega arith) low,
  λ e. omega (arith, e.0),
)
handle_updates-Holds text size total server s (suc k) n m held low =
    let (len, answer, inside, last) = s.answers n m.offset low in
    let next = take_part m.offset len (text m.offset (m.offset + len)) m in
    let grown = s.grows n in
    let (m', ran, held', above, below, _) =
      handle_updates-Holds text size total server s k (suc n) next
        (take_part-Holds text size total server s m len held) (omega arith) in
    (
      m',
      ap (handle_updates server (suc n) k)
            (ap (λ r. handle_update r m) answer ∙ handle_update-append m.offset len _ m)
          ∙ ran,
      held',
      omega arith,
      subst (λ j. m'.offset ≤ size j) (omega arith) below,
      λ e. last (omega (arith, e.1)),
    )
