-- ===== src/Options/Overrides.antt =====
-- What the table of parameters sends: for each key its last value.
use azkaban_private.Prelude.{
  Bool, true, false, ◌≡◌, refl, sym, ◌∙◌, ap, if◌then◌else◌, Option, none, some, List, [], ◌∷◌,
  ◌++◌, String, str_eq, lookup, insert, lookup-insert, eq_iff, arith, Bool-cases, inl, inr,
}
use azkaban_private.Options.{
  Params, shown, Row, row_entry, flow_override, handle_add_row, add_params,
}

-- The value of the last row whose key is `k`, or else `o`.
abbrev pub last_value : String → List Row → Option String → Option String
last_value k [] o = o
last_value k (r ∷ rows) o =
    last_value k rows (if str_eq (row_entry r).0 k then some (row_entry r).1 else o)

-- `flowOverride` has a key exactly if the key is not empty and some row of the table has it, and then
-- its value is that of the last such row. A key whose cell is being edited counts as absent, and the
-- value takes its place.
pub lookup-flow_override :
    (k : String) (rows : List Row) (object : Params)
    → lookup k (flow_override rows object)
      ≡ (if str_eq k "" then lookup k object else last_value k rows (lookup k object))
unfolding flow_override
lookup-flow_override k [] object = ground arith
lookup-flow_override k (r ∷ rows) object = elim (Bool-cases (str_eq (row_entry r).0 "")) [
  | inl empty ↦
      rw (empty, flow_override)
        (lookup-flow_override k rows object
          ∙ ground (arith, eq_iff (row_entry r).0 "", eq_iff (row_entry r).0 k, eq_iff k ""))
  | inr full ↦
      rw (full, flow_override)
        (lookup-flow_override k rows (insert (row_entry r).0 (row_entry r).1 object)
          ∙ ap (λ o. if str_eq k "" then o else last_value k rows o)
              (lookup-insert (row_entry r).0 k (row_entry r).1 object)
          ∙ ground (arith, eq_iff (row_entry r).0 "", eq_iff (row_entry r).0 k, eq_iff k ""))
]

-- The property of the last key `k` of an object's properties, or else `o`.
abbrev last_param : String → Params → Option String → Option String
last_param k [] o = o
last_param k ((key, value) ∷ params) o =
    last_param k params (if str_eq key k then some value else o)

last_value-append :
    (k : String) (rows : List Row) (r : Row) (o : Option String)
    → last_value k (rows ++ r ∷ []) o
      ≡ (if str_eq (row_entry r).0 k then some (row_entry r).1 else last_value k rows o)
last_value-append k [] r o = refl
last_value-append k (q ∷ rows) r o =
    last_value-append k rows r (if str_eq (row_entry q).0 k then some (row_entry q).1 else o)

last_value-add_params :
    (k : String) (params : Params) (rows : List Row) (o : Option String)
    → last_value k (add_params params rows) o ≡ last_param k params (last_value k rows o)
last_value-add_params k [] rows o = refl
last_value-add_params k ((key, value) ∷ params) rows o =
    last_value-add_params k params (handle_add_row key value rows) o
    ∙ ap (last_param k params)
        (last_value-append k rows (record { key = shown key; value = shown value }) o)

-- No two properties have one key.
abbrev pub IsObject : Params → Type 0
IsObject [] = Unit
IsObject ((key, value) ∷ params) = (lookup key params ≡ none) × IsObject params

last_param-lookup :
    (k : String) (params : Params) (o : Option String)
    → IsObject params
    → last_param k params o ≡ elim (lookup k params) [ none ↦ o | some v ↦ some v ]
unfolding lookup
last_param-lookup k [] o once = refl
last_param-lookup k ((key, value) ∷ params) o (fresh_key, once) =
    last_param-lookup k params (if str_eq key k then some value else o) once
    ∙ first_or (str_eq key k) (lookup k params)
        (λ hit. ap (λ j. lookup j params) (sym ((eq_iff key k).0 hit)) ∙ fresh_key)
  where
    first_or :
        (b : Bool) (l : Option String)
        → (b ≡ true → l ≡ none)
        → elim l [ none ↦ if b then some value else o | some v ↦ some v ]
          ≡ elim (if b then some value else l) [ none ↦ o | some v ↦ some v ]
    first_or true l absent = rw (absent refl) refl
    first_or false l absent = refl

-- The rows that the properties of an object are put in send these properties.
pub lookup-add_params :
    (k : String) (params : Params)
    → IsObject params
    → lookup k (flow_override (add_params params []) [])
      ≡ (if str_eq k "" then none else lookup k params)
unfolding lookup
lookup-add_params k params once =
    lookup-flow_override k (add_params params []) []
    ∙ ap (λ o. if str_eq k "" then none else o)
        (last_value-add_params k params [] none
          ∙ last_param-lookup k params none once
          ∙ same (lookup k params))
  where
    same : (o : Option String) → elim o [ none ↦ none | some v ↦ some v ] ≡ o
    same none = refl
    same (some v) = refl
