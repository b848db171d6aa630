-- ===== src/Logs/Tests.antt =====
-- A small log, its server, and the theorems about fetching it there.
use azkaban_private.Prelude.{
  ℕ, zero, suc, ◌+◌, ◌-◌, ◌≡◌, refl, ◌≤◌, ◌<◌, ltb, ◌∙◌, Bool-cases, inl, inr, if◌then◌else◌,
  Option, none, some, List, [], ◌∷◌, ◌++◌, arith, ap,
}
use azkaban_private.Logs.{Reply, part, LogModel, initialize, refresh}
use azkaban_private.Logs.Complete.{
  IsLogServer, Holds, refresh_lem, handle_updates, handle_updates-Holds,
}

-- `count a n`: the characters of the bytes from `a` on, of which there are `n`.
abbrev count : ℕ → ℕ → List ℕ
count a zero = []
count a (suc n) = a ∷ count (suc a) n

count-join : (m n a : ℕ) → count a m ++ count (a + m) n ≡ count a (m + n)
count-join zero n a =
    let here : a + 0 ≡ a = omega arith in
    let only : n ≡ 0 + n = omega arith in ap (λ b. count b n) here ∙ ap (count a) only
count-join (suc m) n a =
    let later : a + suc m ≡ suc a + m = omega arith in
    let longer : suc (m + n) ≡ suc m + n = omega arith in
    ap (λ b. a ∷ (count (suc a) m ++ count b n)) later
    ∙ ap (λ t. a ∷ t) (count-join m n (suc a))
    ∙ ap (count a) longer

abbrev characters : ℕ → ℕ → List ℕ
characters a b = count a (b - a)

-- The log has five bytes and a request is given one byte at a time.
abbrev one_by_one : ℕ → ℕ → Reply ℕ
one_by_one n a = let len : ℕ = if ltb a 5 then 1 else 0 in part a len (characters a (a + len))

five : IsLogServer characters (λ n. 5) 5 one_by_one
five = record {
  joins = λ a b c ab bc.
      ap (λ t. characters a b ++ count t (c - b)) (omega arith)
      ∙ count-join (b - a) (c - b) a
      ∙ ap (count a) (omega arith);
  grows = λ n. omega arith;
  bounded = λ n. omega arith;
  answers = λ n a low. elim (Bool-cases (ltb a 5)) [
    | inl more ↦ (1, rw more refl, ground arith, λ e. cc)
    | inr end ↦ (0, rw end refl, ground arith, λ e. ground arith)
  ];
}

abbrev text_of : Option (ℕ × LogModel ℕ) → List ℕ
text_of none = []
text_of (some (n, m)) = m.log_data

whole_text : text_of (refresh 6 one_by_one 0 initialize) ≡ 0 ∷ 1 ∷ 2 ∷ 3 ∷ 4 ∷ []
unfolding refresh
whole_text = refl

refresh_lem_example :
    (k : ℕ) × (m' : LogModel ℕ) × (refresh 6 one_by_one 0 initialize ≡ some (suc k, m'))
    × (0 ≤ k)
    × (m'.offset ≡ 5)
    × (m'.log_data ≡ characters 0 5)
refresh_lem_example =
    refresh_lem characters (λ n. 5) 5 one_by_one five 6 0 initialize refl (omega arith)
      (omega arith)

handle_updates-Holds_example :
    let first : ℕ = 0 in
    (m' : LogModel ℕ) × (handle_updates one_by_one 0 2 initialize ≡ m')
    × Holds characters m'
    × (0 ≤ m'.offset)
    × (m'.offset ≤ 5)
    × ((0 < 2) × (m'.offset ≡ first) → first ≡ 5)
handle_updates-Holds_example =
    handle_updates-Holds characters (λ n. 5) 5 one_by_one five 2 0 initialize refl (omega arith)
