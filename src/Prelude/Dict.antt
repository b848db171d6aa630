-- ===== src/Prelude/Dict.antt =====
-- An object literal used as a map from texts: its properties in the order in which they were added.
use Prim.Native.String.{String}
use mathlib.Core.Path.{◌≡◌, refl}
use mathlib.Core.Option.{Option, none, some}
use mathlib.Core.List.{List, [], ◌∷◌}
use native.Mathlib.Omega.{arith}
use text.Mathlib.Text.{◌==◌ as str_eq}
use text.Mathlib.TextEquality.{eq_iff}
use azkaban_private.Prelude.Tests.{if◌then◌else◌}

abbrev pub Dict {ℓ} : Type ℓ → Type ℓ
Dict V = List (String × V)

-- `object[key]`, where `none` is `undefined`.
unfoldable pub lookup {ℓ} : {V : Type ℓ} → String → Dict V → Option V
lookup key [] = none
lookup key (prop ∷ object) = if str_eq prop.0 key then some prop.1 else lookup key object

-- `object[key] = value`: a property that is there keeps its place.
unfoldable pub insert {ℓ} : {V : Type ℓ} → String → V → Dict V → Dict V
insert key value [] = (key, value) ∷ []
insert key value (prop ∷ object) =
    if str_eq prop.0 key then (prop.0, value) ∷ object else prop ∷ insert key value object

pub lookup-insert {ℓ} :
    {V : Type ℓ} (key other : String) (value : V) (object : Dict V)
    → lookup other (insert key value object)
      ≡ (if str_eq key other then some value else lookup other object)
unfolding lookup insert
lookup-insert key other value [] = refl
lookup-insert key other value (prop ∷ object) =
    let rest = lookup-insert key other value object in
    ground (arith, rest, eq_iff prop.0 key, eq_iff prop.0 other, eq_iff key other)
