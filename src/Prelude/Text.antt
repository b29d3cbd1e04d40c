-- ===== src/Prelude/Text.antt =====
-- Python's operations on `str` that the program uses: `==`, `+`, `startswith`, `endswith`, slices
-- past a prefix and `split` at a character.
use Prim.Native.Char.{Char}
use Prim.Native.String.{String}
use mathlib.Core.Path.{◌≡◌, refl}
use mathlib.Core.Bool.{Bool, true, false, ◌||◌}
use mathlib.Core.Option.{Option, none, some}
use mathlib.Core.List.{List, [], ◌∷◌}
use text.Mathlib.Text.{◌==◌}
use stonefold.Prelude.Tests.{if◌then◌else◌}

-- s == t
abbrev pub str_eq : String → String → Bool
str_eq s t = s == t

-- s + t
infixr 65 ◌+s◌
unfoldable pub ◌+s◌ : String → String → String
String.[] +s t = t
String.◌∷◌ c s +s t = String.◌∷◌ c (s +s t)

abbrev char_eq : Char → Char → Bool
char_eq c d = String.◌∷◌ c String.[] == String.◌∷◌ d String.[]

-- The text after the prefix `p` of `s`, if `s` starts with `p`.
unfoldable pub strip_prefix : String → String → Option String
strip_prefix s String.[] = some s
strip_prefix String.[] (String.◌∷◌ d p) = none
strip_prefix (String.◌∷◌ c s) (String.◌∷◌ d p) =
    let rest = strip_prefix s p in if char_eq c d then rest else none

abbrev pub starts_with : String → String → Bool
starts_with s p = elim (strip_prefix s p) [ none ↦ false | some _ ↦ true ]

unfoldable pub ends_with : String → String → Bool
ends_with String.[] t = String.[] == t
ends_with (String.◌∷◌ c s) t = let rest = ends_with s t in (String.◌∷◌ c s == t) || rest

pub strip_prefix-kill : (s : String) → strip_prefix ("kill:" +s s) "kill:" ≡ some s
unfolding strip_prefix ◌+s◌
strip_prefix-kill s = refl

ends_with-unavailable : ends_with "scope-unavailable" "-unavailable" ≡ true
unfolding ends_with
ends_with-unavailable = refl

-- s.split(c): at least one part
cons_head : Char → List String → List String
cons_head c [] = String.◌∷◌ c String.[] ∷ []
cons_head c (p ∷ ps) = String.◌∷◌ c p ∷ ps

unfoldable pub split : String → Char → List String
unfolding cons_head
split String.[] d = "" ∷ []
split (String.◌∷◌ c s) d =
    let rest = split s d in if char_eq c d then "" ∷ rest else cons_head c rest
