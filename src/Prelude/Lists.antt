-- ===== src/Prelude/Lists.antt =====
-- Arrays as lists, measured by native numbers.
use Prim.Native.Nat.{ℕ, suc, ◌+◌}
use mathlib.Core.Path.{◌≡◌, refl}
use mathlib.Core.Logic.{◌⊎◌, inl, inr, ◌↔◌, ⊎_elim}
use mathlib.Core.List.{List, [], ◌∷◌, ◌++◌, Memᴰ}
use mathlib.Core.List.Memᴰ
use native.Mathlib.Omega.{arith}

module _ {ℓ} {A : Type ℓ} where
  abbrev pub length : List A → ℕ
  length [] = 0
  length (_ ∷ xs) = suc (length xs)

  pub length-append : (xs ys : List A) → length (xs ++ ys) ≡ length xs + length ys
  length-append [] ys = omega arith
  length-append (x ∷ xs) ys = omega (arith, length-append xs ys)

  pub List-cases : (xs : List A) → (xs ≡ []) ⊎ ((x : A) × (rest : List A) × (xs ≡ x ∷ rest))
  List-cases [] = inl refl
  List-cases (x ∷ xs) = inr (x, xs, refl)

  pub Memᴰ-cons : (a x : A) (xs : List A) → Memᴰ a (x ∷ xs) ↔ ((a ≡ x) ⊎ Memᴰ a xs)
  Memᴰ-cons a x xs = (Memᴰ.cases_cons, ⊎_elim Memᴰ.head Memᴰ.tail)

  -- Of every element.
  abbrev pub All {κ} : (A → Type κ) → List A → Type κ
  All P [] = Unit
  All P (x ∷ xs) = P x × All P xs

  -- Of some element.
  abbrev pub Any : (A → Type 0) → List A → Type 0
  Any P [] = ⊥
  Any P (x ∷ xs) = P x ⊎ Any P xs

  pub Any-map : (P Q : A → Type 0) (xs : List A) → ((x : A) → P x → Q x) → Any P xs → Any Q xs
  Any-map P Q [] f a = a
  Any-map P Q (x ∷ xs) f (inl p) = inl (f x p)
  Any-map P Q (x ∷ xs) f (inr a) = inr (Any-map P Q xs f a)

  pub All-weaker : (P Q : A → Type 0) → ((a : A) → P a → Q a) → (xs : List A) → All P xs → All Q xs
  All-weaker P Q weaker [] all = tt
  All-weaker P Q weaker (a ∷ xs) (p, all) = (weaker a p, All-weaker P Q weaker xs all)

  -- Behind the others, a last one.
  pub Memᴰ-last : (a last : A) (xs : List A) → Memᴰ a (xs ++ last ∷ []) ↔ (Memᴰ a xs ⊎ (a ≡ last))
  Memᴰ-last a last [] = (
    λ m. elim ((Memᴰ-cons a last []).0 m) [ inl same ↦ inr same | inr no_more ↦ inl no_more ],
    λ either. (Memᴰ-cons a last []).1 (⊎_elim inr inl either),
  )
  Memᴰ-last a last (x ∷ xs) =
      let (to, from) = Memᴰ-last a last xs in
      let (out, back) = Memᴰ-cons a x (xs ++ last ∷ []) in
      let (out', back') = Memᴰ-cons a x xs in
      (
        λ m. elim (out m) [
          | inl same ↦ inl (back' (inl same))
          | inr later ↦ elim (to later) [ inl old ↦ inl (back' (inr old)) | inr new ↦ inr new ]
        ],
        λ either. elim either [
          | inl old ↦ elim (out' old) [
            | inl same ↦ back (inl same)
            | inr later ↦ back (inr (from (inl later)))
          ]
          | inr new ↦ back (inr (from (inr new)))
        ],
      )
