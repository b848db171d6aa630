-- ===== src/JobEdit/Saved.antt =====
-- The properties of a job that are shown and then set without a change.
use azkaban_private.Prelude.{
  ◌≡◌, ◌≢◌, refl, sym, ◌∙◌, ap, subst, if◌then◌else◌, Bool, false, true, Option, none, some, List,
  [], ◌∷◌, String, str_eq, lookup, insert, lookup-insert, eq_iff, Bool-cases, inl, inr, map,
}
use azkaban_private.Options.{Params, Cell, shown, editing, Row, flow_override}
use azkaban_private.Options as Dialog
use azkaban_private.Options.Overrides.{IsObject, lookup-add_params}
use azkaban_private.JobEdit.{
  View, close_editing_target, add_params, show_job, row_of, Overrides, defined, job_override,
  handle_set,
}
use azkaban_private.JobEdit.Table.{is_kept_apart, editable, table, table-add_params, by_cases}
use azkaban_private.JobEdit.Edited.{IsValid, close_cases}

differs : (s t : String) → s ≢ t → str_eq s t ≡ false
differs s t n = elim (Bool-cases (str_eq s t)) [ inl e ↦ absurd (n ((eq_iff s t).0 e)) | inr e ↦ e ]

-- Every test of a name against the three names that are not as the others.
abbrev IsPlain : String → Type 0
IsPlain k =
    (str_eq "type" k ≡ false)
    × (str_eq k "type" ≡ false)
    × (str_eq "dependencies" k ≡ false)
    × (str_eq k "dependencies" ≡ false)
    × (str_eq k "" ≡ false)

by_name :
    (P : String → Type 0)
    → P "type"
    → P "dependencies"
    → P ""
    → ((k : String) → IsPlain k → P k)
    → (k : String) → P k
by_name P t d e plain k = elim (Bool-cases (str_eq k "type")) [
  | inl h ↦ subst P (sym ((eq_iff k "type").0 h)) t
  | inr n ↦ elim (Bool-cases (str_eq k "dependencies")) [
    | inl h ↦ subst P (sym ((eq_iff k "dependencies").0 h)) d
    | inr m ↦ elim (Bool-cases (str_eq k "")) [
      | inl h ↦ subst P (sym ((eq_iff k "").0 h)) e
      | inr q ↦ plain k (
        differs "type" k (λ h. let no : true ≡ false = sym ((eq_iff k "type").1 (sym h)) ∙ n in cc),
        n,
        differs "dependencies" k
            (λ h. let no : true ≡ false = sym ((eq_iff k "dependencies").1 (sym h)) ∙ m in cc),
        m,
        q,
      )
    ]
  ]
]

abbrev pub defined_value : Option String → Option (Option String)
defined_value none = none
defined_value (some v) = some (some v)

lookup-defined :
    (k : String) (params : Params) → lookup k (defined params) ≡ defined_value (lookup k params)
unfolding lookup
lookup-defined k [] = refl
lookup-defined k ((key, value) ∷ params) = elim (Bool-cases (str_eq key k)) [
  | inl e ↦ rw e refl
  | inr e ↦ rw e (lookup-defined k params)
]

lookup-if :
    (k : String) (b : Bool) (x y : Params)
    → lookup k (if b then x else y) ≡ (if b then lookup k x else lookup k y)
lookup-if k true x y = refl
lookup-if k false x y = refl

if_same : {A : Type 0} (b : Bool) (x : A) → (if b then x else x) ≡ x
if_same true x = refl
if_same false x = refl

lookup-editable :
    (k : String) (params : Params)
    → lookup k (editable params) ≡ (if is_kept_apart k then none else lookup k params)
unfolding lookup
lookup-editable k [] = sym (if_same (is_kept_apart k) none)
lookup-editable k ((key, value) ∷ params) =
    lookup-if k (is_kept_apart key) (editable params) ((key, value) ∷ editable params)
    ∙ choose (is_kept_apart key) (is_kept_apart k) (str_eq key k) (lookup k (editable params))
        (lookup k params) (lookup-editable k params) (λ e. ap is_kept_apart ((eq_iff key k).0 e))
  where
    choose :
        (a b h : Bool) (E L : Option String)
        → E ≡ (if b then none else L)
        → (h ≡ true → a ≡ b)
        → (if a then E else if h then some value else E)
          ≡ (if b then none else if h then some value else L)
    choose true true h E L e s = e
    choose true false true E L e s = let no : true ≡ false = s refl in cc
    choose true false false E L e s = e
    choose false true true E L e s = let no : false ≡ true = s refl in cc
    choose false true false E L e s = e
    choose false false true E L e s = refl
    choose false false false E L e s = e

editable-IsObject : (params : Params) → IsObject params → IsObject (editable params)
editable-IsObject [] once = tt
editable-IsObject ((key, value) ∷ params) (absent, once) =
    let rest = editable-IsObject params once in
    by_cases (λ b. IsObject (if b then editable params else (key, value) ∷ editable params))
      (is_kept_apart key) rest
      (
        lookup-editable key params
            ∙ ap (λ o. if is_kept_apart key then none else o) absent
            ∙ if_same (is_kept_apart key) none,
        rest,
      )

lookup-job_override :
    (k : String) (params : Params) (rows : List Row)
    → lookup k (job_override params rows) ≡ (
        if str_eq "dependencies" k
        then elim (lookup "dependencies" params) [
          | none ↦ defined_value (lookup k (flow_override rows []))
          | some d ↦ some (some d)
        ]
        else if str_eq "type" k
        then some (lookup "type" params)
        else defined_value (lookup k (flow_override rows [])))
unfolding job_override
lookup-job_override k params rows = of_dependencies (lookup "dependencies" params)
  where
    object : Overrides
    object = insert "type" (lookup "type" params) (defined (flow_override rows []))

    with_type : lookup k object ≡ (
        if str_eq "type" k
        then some (lookup "type" params)
        else defined_value (lookup k (flow_override rows [])))
    with_type =
        lookup-insert "type" k (lookup "type" params) (defined (flow_override rows []))
        ∙ ap (λ o. if str_eq "type" k then some (lookup "type" params) else o)
            (lookup-defined k (flow_override rows []))

    not_both :
        (x y : Option (Option String))
        → (if str_eq "type" k then x else y)
          ≡ (if str_eq "dependencies" k then y else if str_eq "type" k then x else y)
    not_both x y =
        by_name
          (λ j.
            (if str_eq "type" j then x else y)
            ≡ (if str_eq "dependencies" j then y else if str_eq "type" j then x else y))
          refl refl refl (λ j n. rw (n.0, n.2) refl) k

    of_dependencies :
        (o : Option String)
        → lookup k (elim o [ none ↦ object | some d ↦ insert "dependencies" (some d) object ]) ≡ (
            if str_eq "dependencies" k
            then elim o [
              | none ↦ defined_value (lookup k (flow_override rows []))
              | some d ↦ some (some d)
            ]
            else if str_eq "type" k
            then some (lookup "type" params)
            else defined_value (lookup k (flow_override rows [])))
    of_dependencies none = with_type ∙ not_both _ _
    of_dependencies (some d) =
        lookup-insert "dependencies" k (some d) object
        ∙ ap (λ o. if str_eq "dependencies" k then some (some d) else o) with_type

-- The properties of a job that are shown in an empty table and then set are sent as they were: the
-- type, which is sent as undefined if there is none, and each other property whose name is not
-- empty; and no other property is sent.
pub handle_set-show_job :
    (params : Params) (v : View)
    → IsObject params
    → IsValid v
    → v.rows ≡ []
    → v.editing_target ≡ none
    → (k : String)
    → lookup k (handle_set (show_job params v)) ≡ (
        if str_eq "type" k
        then some (lookup "type" params)
        else if str_eq k ""
        then none
        else defined_value (lookup k params))
unfolding handle_set show_job
handle_set-show_job params v once i empty none_edited k =
    let w = record v { override_params = params } in
    let shown_view = add_params params w in
    let valid : IsValid w = record { edited = i.edited; made = i.made; listed = i.listed } in
    let (rows, target, same) = table-add_params params w valid in
    let closed : close_editing_target shown_view ≡ shown_view = elim (close_cases shown_view) [
      | inl (e, closed) ↦ closed
      | inr (c, e, closed) ↦ let no : none ≡ some c = sym (target ∙ none_edited) ∙ e in cc
    ] in
    let only : table shown_view ≡ Dialog.add_params (editable params) [] =
      rows ∙ ap (λ rs. Dialog.add_params (editable params) (map (row_of v.cell) rs)) empty in
    ap (λ u. lookup k (job_override u.override_params (table u))) closed
    ∙ ap (λ p. lookup k (job_override p (table shown_view))) same
    ∙ ap (λ rs. lookup k (job_override params rs)) only
    ∙ lookup-job_override k params (Dialog.add_params (editable params) [])
    ∙ ap
        (λ o.
          if str_eq "dependencies" k
          then elim (lookup "dependencies" params) [
            | none ↦ defined_value o
            | some d ↦ some (some d)
          ]
          else if str_eq "type" k
          then some (lookup "type" params)
          else defined_value o)
        (lookup-add_params k (editable params) (editable-IsObject params once)
          ∙ ap (λ o. if str_eq k "" then none else o) (lookup-editable k params))
    ∙ by_name
        (λ j.
          (if str_eq "dependencies" j
            then elim (lookup "dependencies" params) [
              | none ↦
                  defined_value (
                    if str_eq j "" then none else if is_kept_apart j then none else lookup j params)
              | some d ↦ some (some d)
            ]
            else if str_eq "type" j
            then some (lookup "type" params)
            else defined_value
                (if str_eq j "" then none else if is_kept_apart j then none else lookup j params))
          ≡ (if str_eq "type" j
              then some (lookup "type" params)
              else if str_eq j ""
              then none
              else defined_value (lookup j params)))
        refl (dependencies (lookup "dependencies" params)) refl
        (λ j n. rw (n.0, n.1, n.2, n.3, n.4) refl) k
  where
    dependencies :
        (o : Option String)
        → elim o [ none ↦ defined_value none | some d ↦ some (some d) ] ≡ defined_value o
    dependencies none = refl
    dependencies (some d) = refl
