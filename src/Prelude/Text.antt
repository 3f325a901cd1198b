-- ===== src/Prelude/Text.antt =====
-- A JavaScript string that the code walks: the list of its UTF-16 code units.
use Prim.Native.Nat.{ℕ}
use Prim.Native.Char.{code}
use Prim.Native.String.{String}
use mathlib.Core.Bool.{Bool}
use mathlib.Core.List.{List, [], ◌∷◌}
use braiker.Prelude.Tests.{if◌then◌else◌}
use braiker.Prelude.{true, ◌==◌, ◌&&◌, false}

abbrev pub Text : Type 0
Text = List ℕ

-- The code units of a literal, which is ASCII throughout the program's money and cron texts.
abbrev pub text : String → Text
text String.[] = []
text (String.◌∷◌ c s) = code c ∷ text s

-- A literal in a message; it stays folded in proofs.
unfoldable pub literal : String → Text
literal s = text s

-- `condition ? a : b` between two literals
unfoldable pub either_literal : Bool → String → String → Text
unfolding literal
either_literal condition a b = if condition then literal a else literal b

-- `a === b`
unfoldable pub same_text : Text → Text → Bool
same_text [] [] = true
same_text (a ∷ s) (b ∷ t) = a == b && same_text s t
same_text _ _ = false
