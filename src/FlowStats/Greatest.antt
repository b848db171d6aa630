-- ===== src/FlowStats/Greatest.antt =====
-- `keep_max` over a sequence of observations.
use azkaban_private.Prelude.{
  ◌==◌, ◌≡◌, refl, ◌∙◌, false, true, Option, some, List, [], ◌∷◌, ◌++◌, String, arith, All, Any,
  Bool-cases, inl, inr, ◌⊎◌,
}
use azkaban_private.FlowStats.{Amount, nan, int, at_least, Field, field_number, Max, record_max}

-- A value of a field, with its text and its job.
pub record Observation : Type 0 where
  pub field : Field
  pub value : Amount
  pub str : Option String
  pub job : String

abbrev pub observe : Observation → (Field → Max) → Field → Max
observe o = record_max o.field o.value o.str o.job

abbrev pub observe_all : List Observation → (Field → Max) → Field → Max
observe_all [] maxima = maxima
observe_all (o ∷ os) maxima = observe_all os (observe o maxima)

pub observe_all-append :
    (os qs : List Observation) (maxima : Field → Max)
    → observe_all (os ++ qs) maxima ≡ observe_all qs (observe_all os maxima)
observe_all-append [] qs maxima = refl
observe_all-append (o ∷ os) qs maxima = observe_all-append os qs (observe o maxima)

-- The field's value is no NaN, is at least `low`, at least each observation of the field that is no
-- NaN, and it is as it was or one of these observations, with its text and its job.
pub record IsGreatest (f : Field) (os : List Observation) (before after : Max) : Type 0 where
  pub grows : at_least after.max before.max ≡ true
  pub bounds :
      All
        (λ o.
          (field_number o.field ≡ field_number f)
          → (o.value ≡ nan) ⊎ (at_least after.max o.value ≡ true))
        os
  pub attained :
      (after ≡ before)
      ⊎ Any
          (λ o.
            (field_number o.field ≡ field_number f)
            × (after ≡ record { max = o.value; str = o.str; job = some o.job }))
          os

at_least_trans : (a b c : Amount) → at_least a b ≡ true → at_least b c ≡ true → at_least a c ≡ true
at_least_trans (int a) (int b) (int c) e f = ground arith
at_least_trans nan b c e f = cc
at_least_trans (int a) nan c e f = cc
at_least_trans (int a) (int b) nan e f = cc

at_least_self : (a b : Amount) → at_least a b ≡ true → (at_least a a ≡ true) × (at_least b b ≡ true)
at_least_self (int a) (int b) e = (ground arith, ground arith)
at_least_self nan b e = cc
at_least_self (int a) nan e = cc

not_at_least :
    (a b : Amount) → at_least b b ≡ true → at_least a b ≡ false → (a ≡ nan) ⊎ (at_least b a ≡ true)
not_at_least (int a) (int b) s e = inr (ground arith)
not_at_least nan b s e = inl refl
not_at_least (int a) nan s e = cc

-- One observation, where the field is a number before.
observe-step :
    (f : Field) (o : Observation) (maxima : Field → Max)
    → at_least (maxima f).max (maxima f).max ≡ true
    → let m = observe o maxima f in
      (at_least m.max (maxima f).max ≡ true)
      × (field_number o.field ≡ field_number f → (o.value ≡ nan) ⊎ (at_least m.max o.value ≡ true))
      × ((m ≡ maxima f)
          ⊎ (field_number o.field ≡ field_number f)
            × (m ≡ record { max = o.value; str = o.str; job = some o.job }))
unfolding record_max
observe-step f o maxima known = elim (Bool-cases (field_number o.field == field_number f)) [
  | inl e ↦ elim (Bool-cases (at_least o.value (maxima f).max)) [
    | inl g ↦
        rw (e, g)
          (g, λ same. inr ((at_least_self o.value (maxima f).max g).0), inr (ground arith, refl))
    | inr g ↦ rw (e, g) (known, λ same. not_at_least o.value (maxima f).max known g, inl refl)
  ]
  | inr e ↦ rw e (known, λ same. absurd (ground arith), inl refl)
]

pub observe_all-IsGreatest :
    (f : Field) (os : List Observation) (maxima : Field → Max)
    → at_least (maxima f).max (maxima f).max ≡ true
    → IsGreatest f os (maxima f) (observe_all os maxima f)
observe_all-IsGreatest f [] maxima known = record {
  grows = known;
  bounds = tt;
  attained = inl refl;
}
observe_all-IsGreatest f (o ∷ os) maxima known =
    let next = observe o maxima in
    let last = observe_all os next f in
    let (grew, bound, either) = observe-step f o maxima known in
    let rest =
      observe_all-IsGreatest f os next (at_least_self (next f).max (maxima f).max grew).0 in
    record {
      grows = at_least_trans last.max (next f).max (maxima f).max rest.grows grew;
      bounds = (
        λ same. elim (bound same) [
          | inl n ↦ inl n
          | inr g ↦ inr (at_least_trans last.max (next f).max o.value rest.grows g)
        ],
        rest.bounds,
      );
      attained = elim rest.attained [
        | inl e ↦ elim either [ inl e' ↦ inl (e ∙ e') | inr (same, e') ↦ inr (inl (same, e ∙ e')) ]
        | inr later ↦ inr (inr later)
      ];
    }
