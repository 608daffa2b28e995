-- ===== src/Prelude/Texts.antt =====
-- Texts as lists of bytes (UTF-8), which the program searches and concatenates.
use Prim.Native.Char.{code}
use Prim.Native.String.{String}
use mathlib.Core.Bool.{false, true, Bool, ◌&&◌}
use mathlib.Core.List.{List, [], ◌∷◌}
use Prim.Native.Nat.{ℕ}
use rxh.Prelude.Tests.{◌==◌}

abbrev pub Text : Type 0
Text = List ℕ

-- The bytes of an ASCII literal.
abbrev pub bytes : String → Text
bytes String.[] = []
bytes (String.◌∷◌ c s) = code c ∷ bytes s

-- `str::starts_with`, the prefix second
unfoldable pub starts_with : Text → Text → Bool
starts_with s [] = true
starts_with [] (p ∷ ps) = false
starts_with (c ∷ s) (p ∷ ps) = (c == p) && starts_with s ps

-- `==` on texts
abbrev pub same_text : Text → Text → Bool
same_text [] [] = true
same_text [] (d ∷ t) = false
same_text (c ∷ s) [] = false
same_text (c ∷ s) (d ∷ t) = (c == d) && same_text s t
