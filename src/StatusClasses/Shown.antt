-- ===== src/StatusClasses/Shown.antt =====
-- The loop of changeStatuses over the nodes of one flow.
use azkaban_private.Prelude.{
  ℕ, ◌<◌, ◌==◌, ◌≡◌, refl, sym, ap, ◌∙◌, Bool, true, false, ◌⊎◌, inl, inr, Option, none, some, List,
  [], ◌∷◌, Memᴰ, ◌>>=◌, arith, Bool-cases,
}
use azkaban_private.Flow.{Ref, Heap}
use azkaban_private.Status.{Status, is, is_iff, status_list}
use azkaban_private.StatusClasses.{
  Classes, has_class, remove_all_status, show_status, change_status, change_at, change_list,
  change_statuses,
}
use azkaban_private.StatusClasses.Kept.{is_listed, remove_all_status_lem}

-- The classes that say just this status.
abbrev pub shown_as : Option Status → Classes
shown_as none t = false
shown_as (some s) t = is s t

abbrev pub Shows : Classes → Option Status → Type 0
Shows c status = (t : Status) → c t ≡ shown_as status t

abbrev pub IsListed : Option Status → Type 0
IsListed none = Unit
IsListed (some s) = is_listed s status_list ≡ true

-- What is left of the class of a listed status.
cleared :
    (c : Classes) (old : Option Status) (t : Status)
    → Shows c old
    → IsListed old
    → remove_all_status status_list c t ≡ false
cleared c none t shows listed = elim (Bool-cases (is_listed t status_list)) [
  | inl e ↦ remove_all_status_lem status_list c t ∙ rw e refl
  | inr e ↦ remove_all_status_lem status_list c t ∙ rw e (shows t)
]
cleared c (some s) t shows listed = elim (Bool-cases (is_listed t status_list)) [
  | inl e ↦ remove_all_status_lem status_list c t ∙ rw e refl
  | inr e ↦ remove_all_status_lem status_list c t ∙ rw e (shows t ∙ other (is s t) (is_iff s t).0 e)
]
  where
    other : (b : Bool) → (b ≡ true → s ≡ t) → is_listed t status_list ≡ false → b ≡ false
    other false same e = refl
    other true same e = sym listed ∙ ap (λ x. is_listed x status_list) (same refl) ∙ e

show_status-Shows :
    (status old : Option Status) (c : Classes)
    → Shows c old
    → IsListed old
    → Shows (show_status status c) status
unfolding show_status
show_status-Shows none old c shows listed t = cleared c old t shows listed
show_status-Shows (some s) old c shows listed t = elim (Bool-cases (is s t)) [
  | inl e ↦ rw e refl
  | inr e ↦ rw e (cleared c old t shows listed)
]

has_class-Shows :
    (status old : Option Status) (c : Classes)
    → Shows c old
    → has_class status c ≡ true
    → Shows c status
has_class-Shows none old c shows e t = cc
has_class-Shows (some s) none c shows e t =
    let n : true ≡ false = sym e ∙ shows s in absurd (ground arith)
has_class-Shows (some s) (some q) c shows e t =
    let same : q ≡ s = (is_iff q s).0 (sym (shows s) ∙ e) in shows t ∙ ap (λ x. is x t) same

-- An element that shows a status of the list shows the new status after the change.
pub change_status-Shows :
    (status old : Option Status) (c : Classes)
    → Shows c old
    → IsListed old
    → Shows (change_status status c) status
unfolding change_status
change_status-Shows status old c shows listed = elim (Bool-cases (has_class status c)) [
  | inl e ↦ rw e (has_class-Shows status old c shows e)
  | inr e ↦ rw e (show_status-Shows status old c shows listed)
]

change_same-Shows : (o : Option Status) (c : Classes) → Shows c o → Shows (change_status o c) o
unfolding change_status
change_same-Shows none c shows = change_status-Shows none none c shows tt
change_same-Shows (some s) c shows = rw (shows s ∙ (is_iff s s).1 refl) shows

module _ (h : Heap) where
  -- The nodes of a flow and of the flows embedded in it.
  pub data Below : Ref → Ref → Type 0 where
    child : {d r : Ref} → Memᴰ r (h d).nodes → Below d r
    deeper : {d r x : Ref} → Memᴰ r (h d).nodes → Below r x → Below d x

  abbrev pub IsRanked : (Ref → ℕ) → Type 0
  IsRanked rank = (d r : Ref) → Memᴰ r (h d).nodes → rank r < rank d

  abbrev pub Elements : Type 0
  Elements = Ref → Classes

  -- The element shows the status of its node already, or one that can be taken off.
  abbrev pub IsReady : Elements → Ref → Type 0
  IsReady elements x =
      Shows (elements x) (h x).status
      ⊎ ((old : Option Status) × Shows (elements x) old × IsListed old)

  -- What a loop does whose nodes satisfy `P`.
  pub record Changes (P : Ref → Type 0) (elements after : Elements) : Type 0 where
    pub shows : (x : Ref) → P x → Shows (after x) (h x).status
    pub keeps : (x : Ref) → Shows (elements x) (h x).status → Shows (after x) (h x).status
    pub others : (x : Ref) → (P x → ⊥) → after x ≡ elements x
    pub ready : (x : Ref) → IsReady after x

  change_ready :
      (elements : Elements) (x : Ref)
      → IsReady elements x
      → Shows (change_status (h x).status (elements x)) (h x).status
  unfolding change_status
  change_ready elements x (inl shows) = change_same-Shows (h x).status (elements x) shows
  change_ready elements x (inr (old, shows, listed)) =
      change_status-Shows (h x).status old (elements x) shows listed

  change_at-Changes :
      (r : Ref) (elements : Elements)
      → ((x : Ref) → IsReady elements x)
      → Changes (λ x. r ≡ x) elements (change_at h r elements)
  change_at-Changes r elements ready = record {
    shows = λ x e. elim (Bool-cases (r == x)) [
      | inl same ↦ rw same (change_ready elements x (ready x))
      | inr apart ↦ absurd (ground (arith, apart, e))
    ];
    keeps = λ x s. elim (Bool-cases (r == x)) [
      | inl same ↦ rw same (change_ready elements x (inl s))
      | inr apart ↦ rw apart s
    ];
    others = λ x apart. elim (Bool-cases (r == x)) [
      | inl same ↦ absurd (apart (ground (arith, same)))
      | inr e ↦ rw e refl
    ];
    ready = λ x. elim (Bool-cases (r == x)) [
      | inl same ↦ rw same (inl (change_ready elements x (ready x)))
      | inr apart ↦ rw apart (ready x)
    ];
  }

  Changes-both :
      (P Q R : Ref → Type 0) (a b c : Elements)
      → ((x : Ref) → R x → P x ⊎ Q x)
      → ((x : Ref) → P x → R x)
      → ((x : Ref) → Q x → R x)
      → Changes P a b
      → Changes Q b c
      → Changes R a c
  Changes-both P Q R a b c split left right f g = record {
    shows = λ x r. elim (split x r) [ inl p ↦ g.keeps x (f.shows x p) | inr q ↦ g.shows x q ];
    keeps = λ x s. g.keeps x (f.keeps x s);
    others = λ x n. g.others x (λ q. n (right x q)) ∙ f.others x (λ p. n (left x p));
    ready = g.ready;
  }

  -- A node of the list, or one below such a node.
  abbrev pub Among : List Ref → Ref → Type 0
  Among [] x = ⊥
  Among (r ∷ rs) x = ((r ≡ x) ⊎ Below r x) ⊎ Among rs x

  abbrev pub Does : (Ref → Type 0) → Elements → Option Elements → Type 0
  Does P elements o = (after : Elements) × (o ≡ some after) × Changes P elements after

  pub change_list-Changes :
      (fuel : ℕ) (rs : List Ref) (elements : Elements)
      → ((r : Ref)
          → Memᴰ r rs
          → (e : Elements) → ((x : Ref) → IsReady e x)
          → Does (Below r) e (change_statuses h fuel r e))
      → ((x : Ref) → IsReady elements x)
      → Does (Among rs) elements (change_list h (change_statuses h fuel) rs elements)
  unfolding change_list
  change_list-Changes fuel [] elements each ready = (
    elements,
    refl,
    record { shows = λ x n. absurd n; keeps = λ x s. s; others = λ x n. refl; ready = ready },
  )
  change_list-Changes fuel (r ∷ rs) elements each ready =
      let first = change_at-Changes r elements ready in
      let (b, ran, below) = each r (Memᴰ.head refl) (change_at h r elements) first.ready in
      let (c, ran', rest) =
        change_list-Changes fuel rs b (λ q m. each q (Memᴰ.tail m)) below.ready in
      (
        c,
        ap (λ o. o >>= change_list h (change_statuses h fuel) rs) ran ∙ ran',
        Changes-both (λ x. (r ≡ x) ⊎ Below r x) (Among rs) (Among (r ∷ rs)) elements b c (λ x d. d)
            (λ x d. inl d) (λ x d. inr d)
            (Changes-both (λ x. r ≡ x) (Below r) (λ x. (r ≡ x) ⊎ Below r x) elements
              (change_at h r elements) b (λ x d. d) (λ x d. inl d) (λ x d. inr d) first below)
            rest,
      )
