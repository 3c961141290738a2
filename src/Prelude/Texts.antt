-- ===== src/Prelude/Texts.antt =====
-- Texts: concatenation, emptiness, substring search and decimal numerals.
use Prim.Native.Nat.{ℕ, zero, suc, ◌+◌, ◌/◌, ◌%◌}
use Prim.Native.Char.{code}
use Prim.Native.String
use Prim.Native.String.{String}
use mathlib.Core.Path.{◌≡◌, refl}
use mathlib.Core.Bool.{Bool, true, false, ◌&&◌, ◌||◌}
use mathlib.Core.List.{List, [], ◌∷◌}
use text.Mathlib.Text.{◌==◌ as str_eq}
use smartdns_rs.Prelude.Tests.{ltb, ◌==◌, if◌then◌else◌}

infixr 65 ◌<>◌
-- Concatenation, `a + b` and the pieces of a template literal.
abbrev pub ◌<>◌ : String → String → String
a <> b = String.◌++◌ a b

-- The empty text is the falsy one.
abbrev pub is_empty : String → Bool
is_empty String.[] = true
is_empty (String.◌∷◌ c s) = false

-- `s.startsWith(t)`, by characters.
unfoldable pub starts_with : String → String → Bool
starts_with s String.[] = true
starts_with String.[] (String.◌∷◌ d t) = false
starts_with (String.◌∷◌ c s) (String.◌∷◌ d t) = code c == code d && starts_with s t

-- `s.includes(t)` and `s.contains(t)`.
unfoldable pub includes : String → String → Bool
unfolding starts_with
includes String.[] t = starts_with String.[] t
includes (String.◌∷◌ c s) t = starts_with (String.◌∷◌ c s) t || includes s t

-- `parts.join(sep)`.
unfoldable pub join : String → List String → String
join sep [] = ""
join sep (p ∷ []) = p
join sep (p ∷ q ∷ ps) = p <> sep <> join sep (q ∷ ps)

-- `toLowerCase`, `to_lowercase` and `to_uppercase` by the Unicode tables, which are no part of the
-- source.
pub record CaseMap : Type 0 where
  pub to_lower : String → String
  pub to_upper : String → String

-- `a == b` on texts, as the library tests it.
infix 50 ◌=s=◌
abbrev pub ◌=s=◌ : String → String → Bool
a =s= b = str_eq a b

digit : ℕ → String
digit d = String.slice "0123456789" d (d + 1)

digits_from : ℕ → ℕ → String
unfolding digit
digits_from zero n = ""
digits_from (suc fuel) n =
    let more = digits_from fuel (n / 10) <> digit (n % 10) in
    let last = digit n in if ltb n 10 then last else more

-- A whole number in a template literal or as a JSX child.
unfoldable pub show : ℕ → String
unfolding digits_from
show n = digits_from (suc n) n

show_example : show 4096 ≡ "4096"
unfolding show
show_example = refl

includes_example : (includes "www.example.com" "ample" ≡ true) × (includes "ab" "ba" ≡ false)
unfolding includes
includes_example = (refl, refl)

join_example : join ", " ("a" ∷ "b" ∷ "c" ∷ []) ≡ "a, b, c"
unfolding join
join_example = refl
