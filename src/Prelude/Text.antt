-- ===== src/Prelude/Text.antt =====
-- Methods of texts that are written out. Their indices count characters.
use Prim.Native.Nat.{ℕ, zero, suc}
use Prim.Native.String.{String}

-- `text.length`
abbrev pub text_length : String → ℕ
text_length String.[] = 0
text_length (String.◌∷◌ c text) = suc (text_length text)

-- `text.substring(n, text.length)`
abbrev pub substring_from : ℕ → String → String
substring_from zero text = text
substring_from (suc n) String.[] = ""
substring_from (suc n) (String.◌∷◌ c text) = substring_from n text
