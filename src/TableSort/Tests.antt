-- ===== src/TableSort/Tests.antt =====
-- A small table, sorted both ways, and the theorem about it there.
use azkaban_private.Prelude.{
  ◌≡◌, refl, ◌&&◌, Bool, false, true, ◌==◌, ◌⊎◌, ◌>>=◌, if◌then◌else◌, some, none, List, [], ◌∷◌,
  String, str_eq, map,
}
use mathlib.Core.List.{Permᴰ}
use mathlib.Core.List.Permᴰ
use azkaban_private.TableSort.{
  text_or, Tr, Group, group_rows, rows_of, sort, Verdict, below, same, above,
}
use azkaban_private.TableSort.Groups.{all_fine, group_rows-sort}

abbrev put : (Group → Group → Verdict) → Group → List Group → List Group
put c g [] = g ∷ []
put c g (x ∷ gs) =
    let rest = put c g gs in
    elim (c x g) [ below ↦ x ∷ rest | same ↦ g ∷ x ∷ gs | above ↦ g ∷ x ∷ gs ]

abbrev insertion : (Group → Group → Verdict) → List Group → List Group
insertion c [] = []
insertion c (g ∷ gs) = put c g (insertion c gs)

put-Permᴰ :
    (c : Group → Group → Verdict) (g : Group) (gs : List Group) → Permᴰ (g ∷ gs) (put c g gs)
put-Permᴰ c g [] = Permᴰ.refl _
put-Permᴰ c g (x ∷ gs) = of_verdict (c x g) (put-Permᴰ c g gs)
  where
    of_verdict :
        (v : Verdict)
        → Permᴰ (g ∷ gs) (put c g gs)
        → Permᴰ
            (g ∷ x ∷ gs)
            (elim v [ below ↦ x ∷ put c g gs | same ↦ g ∷ x ∷ gs | above ↦ g ∷ x ∷ gs ])
    of_verdict below rest = Permᴰ.trans (Permᴰ.swap refl refl) (Permᴰ.cons refl rest)
    of_verdict same rest = Permᴰ.refl _
    of_verdict above rest = Permᴰ.refl _

insertion-Permᴰ : (c : Group → Group → Verdict) (gs : List Group) → Permᴰ gs (insertion c gs)
insertion-Permᴰ c [] = Permᴰ.nil
insertion-Permᴰ c (g ∷ gs) =
    Permᴰ.trans (Permᴰ.cons refl (insertion-Permᴰ c gs)) (put-Permᴰ c g (insertion c gs))

abbrev line : String → Bool → Tr
line s child = record { cell = λ i. if i == 0 then some s else none; childrow = child }

abbrev names : List Tr → List String
names = map (λ r. text_or "" (r.cell 0))

-- An order of the texts that the test needs.
abbrev a_first : String → String → Bool
a_first s t = str_eq s "a" && str_eq t "b"

abbrev table : List Tr
table = line "b" false ∷ line "b1" true ∷ line "b2" true ∷ line "a" false ∷ line "a1" true ∷ []

ascending :
    sort a_first insertion 0 false (group_rows none table) >>= (λ gs. some (names (rows_of gs)))
    ≡ some ("a" ∷ "a1" ∷ "b" ∷ "b1" ∷ "b2" ∷ [])
unfolding sort group_rows
ascending = refl

descending :
    sort a_first insertion 0 true (group_rows none table) >>= (λ gs. some (names (rows_of gs)))
    ≡ some ("b" ∷ "b1" ∷ "b2" ∷ "a" ∷ "a1" ∷ [])
unfolding sort group_rows
descending = refl

no_second_cell : sort a_first insertion 1 false (group_rows none table) ≡ none
unfolding sort group_rows
no_second_cell = refl

group_rows-sort_example :
    let result = sort a_first insertion 0 false (group_rows none table) in
    ((all_fine 0 table ≡ true)
      × ((sorted : List Group) × (result ≡ some sorted)
          × (group_rows none (rows_of sorted) ≡ sorted)
          × Permᴰ (group_rows none table) sorted))
    ⊎ (all_fine 0 table ≡ false) × (result ≡ none)
group_rows-sort_example = group_rows-sort a_first insertion insertion-Permᴰ 0 false table
