-- ===== src/Config/Flags.antt =====
-- The flag that an argument sets: the regular expression "^-+([^=]*)=" of stripInvalidFlags.
use Prim.Native.Char.{code}
use Prim.Native.String.{String, [], ◌∷◌}
use text.Mathlib.Text.{starts_with}
use k8e.Common.{Option, none, some, ◌==◌, if◌then◌else◌}

unfoldable pub before_equals : String → Option String
before_equals [] = none
before_equals (c ∷ s) =
    let rest = before_equals s in
    if code c == 61 then some [] else elim rest [ none ↦ none | some key ↦ some (c ∷ key) ]

unfoldable pub skip_dashes : String → String
skip_dashes [] = []
skip_dashes (c ∷ s) = let rest = skip_dashes s in if code c == 45 then rest else c ∷ s

unfoldable pub flag_of : String → String
unfolding before_equals skip_dashes
flag_of arg =
    if starts_with arg "-"
    then (elim (before_equals (skip_dashes arg)) [ none ↦ arg | some key ↦ key ])
    else arg
