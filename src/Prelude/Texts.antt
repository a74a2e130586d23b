-- ===== src/Prelude/Texts.antt =====
-- Texts as lists of code points, and Go's `strings`, as far as the program calls it.
use Prim.Native.Char.{code}
use Prim.Native.String.{String}
use mathlib.Core.Bool.{Bool, true, false, ◌&&◌, ◌||◌}
use mathlib.Core.List.{List, [], ◌∷◌}
use mathlib.Core.Option.{Option, none, some}
use Prim.Native.Nat.{ℕ}
use kms_client.Prelude.Tests.{nat_eq, if◌then◌else◌}

-- The code points of a text. `String` has its own `[]` and `∷`.
abbrev pub codes : String → List ℕ
codes String.[] = []
codes (String.◌∷◌ first rest) = code first ∷ codes rest

abbrev is_prefix : List ℕ → List ℕ → Bool
is_prefix [] t = true
is_prefix (c ∷ cs) [] = false
is_prefix (c ∷ cs) (d ∷ ds) = nat_eq c d && is_prefix cs ds

abbrev is_infix : List ℕ → List ℕ → Bool
is_infix p [] = is_prefix p []
is_infix p (c ∷ cs) = is_prefix p (c ∷ cs) || is_infix p cs

-- strings.Contains(s, sub)
unfoldable pub contains_text : String → String → Bool
contains_text s part = is_infix (codes part) (codes s)

-- What follows a prefix of `s`, if it is one.
unfoldable pub after_prefix : String → String → Option String
after_prefix String.[] s = some s
after_prefix (String.◌∷◌ c p) String.[] = none
after_prefix (String.◌∷◌ c p) (String.◌∷◌ d s) =
    let rest = after_prefix p s in if nat_eq (code c) (code d) then rest else none

-- strings.TrimPrefix(s, prefix)
unfoldable pub trim_prefix : String → String → String
unfolding after_prefix
trim_prefix s prefix = elim (after_prefix prefix s) [ none ↦ s | some rest ↦ rest ]
