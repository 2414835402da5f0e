-- ===== src/Base/Text.antt =====
-- Text literals of the source as the lists of their bytes; they are ASCII.
use Prim.Native.Char.{code}
use Prim.Native.String.{String}
use droidctl.Base.Tests.{◌==◌}
use Prim.Native.Nat.{ℕ}
use mathlib.Core.Bool.{Bool, true, false, ◌&&◌}
use mathlib.Core.List.{List, [], ◌∷◌}

abbrev pub text : String → List ℕ
text String.[] = []
text (String.◌∷◌ c rest) = code c ∷ text rest

-- `!strcmp(a, b)`
abbrev pub same_text : List ℕ → List ℕ → Bool
same_text [] [] = true
same_text [] (y ∷ ys) = false
same_text (x ∷ xs) [] = false
same_text (x ∷ xs) (y ∷ ys) = x == y && same_text xs ys

-- `!strncmp(prefix, s, strlen(prefix))`
abbrev pub starts_with : List ℕ → List ℕ → Bool
starts_with [] s = true
starts_with (x ∷ xs) [] = false
starts_with (x ∷ xs) (y ∷ ys) = x == y && starts_with xs ys
